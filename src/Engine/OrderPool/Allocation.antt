-- ===== src/Engine/OrderPool/Allocation.antt =====
-- What `allocate` and `release` do to the slots.
use sixchange.Base.{
  ℕ, ◌+◌, ◌<◌, ◌≡◌, ◌≢◌, refl, sym, ap, subst, ◌∙◌, inl, inr, none, some, List, [], ◌∷◌, ◌++◌,
  arith, ◌==◌, Bool-cases, length, length-append, All, All-map, All-append, All-left, All-right,
  Absent, Distinct, Distinct-split, Distinct-join,
}
use sixchange.Engine.Order.{
  OrderPtr, Order, empty_order, Slots, write, write_self, write-ne, All-write,
}
use sixchange.Engine.PriceLevel.Queue.{unlinked}
use sixchange.Engine.OrderPool.{OrderPool, allocate, take_slot, fresh, reuse, release}
use sixchange.Engine.OrderPool.Usage.{IsPool, Linked-same}

-- The outcome of `allocate`: null exactly if all `capacity` slots are handed out; else a slot that
-- was not, whose contents are those of a new order.
abbrev pub Allocated : OrderPool → List ℕ → List ℕ → OrderPtr × OrderPool → Type 0
Allocated pool live free (none, pool') = (length live ≡ pool.capacity) × (pool' ≡ pool)
Allocated pool live free (some p, pool') =
    (free' : List ℕ) × IsPool pool' (p ∷ live) free'
    × (length live < pool.capacity)
    × (unlinked (pool.orders p) ≡ empty_order)
    × (pool'.orders p ≡ empty_order)
    × ((x : ℕ) → x ≢ p → pool'.orders x ≡ pool.orders x)

Absent-of_below : (n : ℕ) (xs : List ℕ) → All (λ x. x < n) xs → Absent n xs
Absent-of_below n [] all = tt
Absent-of_below n (x ∷ xs) all = (omega arith, Absent-of_below n xs all.1)

All-weaken : (n : ℕ) (xs : List ℕ) → All (λ x. x < n) xs → All (λ x. x < n + 1) xs
All-weaken n xs all = All-map (λ x (h : x < n). omega arith) xs all

fresh-Allocated :
    (pool : OrderPool) (live : List ℕ) → IsPool pool live [] → Allocated pool live [] (fresh pool)
unfolding fresh
fresh-Allocated pool live v = elim (Bool-cases (pool.size == pool.capacity)) [
  | inl full ↦ rw full (ground (arith, v.count), refl)
  | inr room ↦ rw room (
    [],
    record {
      links = v.links;
      count = omega (arith, v.count);
      fits = ground (arith, v.fits);
      live_below = (omega arith, All-weaken pool.size live v.live_below);
      free_below = tt;
      live_distinct = (Absent-of_below pool.size live v.live_below, v.live_distinct);
      free_distinct = tt;
      apart = (tt, v.apart);
      cleared = tt;
      untouched = λ x h. v.untouched x (omega arith);
    },
    ground (arith, v.count, v.fits),
    ap unlinked (v.untouched pool.size (omega arith)),
    v.untouched pool.size (omega arith),
    λ x ne. refl,
  )
]

Absent-join :
    (p : ℕ) (free xs : List ℕ)
    → Absent p xs
    → All (λ x. Absent x free) xs
    → All (λ x. Absent x (p ∷ free)) xs
Absent-join p free [] out all = tt
Absent-join p free (x ∷ xs) out all =
    ((λ e. out.0 (sym e), all.0), Absent-join p free xs out.1 all.1)

write-agrees :
    (h : Slots) (p : ℕ) (o : Order) (xs : List ℕ) → Absent p xs → All (λ x. write h p o x ≡ h x) xs
write-agrees h p o xs out = All-map (λ x ne. write-ne h p x o ne) xs out

Absent-of_apart : (p : ℕ) (free live : List ℕ) → All (λ x. Absent x (p ∷ free)) live → Absent p live
Absent-of_apart p free [] all = tt
Absent-of_apart p free (x ∷ xs) all = ((λ e. all.0.0 (sym e)), Absent-of_apart p free xs all.1)

reuse-Allocated :
    (pool : OrderPool) (live : List ℕ) (p : ℕ) (free : List ℕ)
    → IsPool pool live (p ∷ free)
    → Allocated pool live (p ∷ free) (reuse pool p)
unfolding reuse
reuse-Allocated pool live p free v = (
  free,
  record {
    links = Linked-same pool.orders _ _ free agrees v.links.1;
    count = omega (arith, v.count);
    fits = v.fits;
    live_below = (v.free_below.0, v.live_below);
    free_below = v.free_below.1;
    live_distinct = (Absent-of_apart p free live v.apart, v.live_distinct);
    free_distinct = v.free_distinct.1;
    apart = (v.free_distinct.0, All-map (λ x (out : Absent x (p ∷ free)). out.1) live v.apart);
    cleared =
        All-write (λ x o. unlinked o ≡ empty_order) pool.orders p empty_order free v.free_distinct.0
          v.cleared.1;
    untouched = λ x h.
        write-ne pool.orders p x empty_order (omega (arith, v.free_below.0)) ∙ v.untouched x h;
  },
  omega (arith, v.count, v.fits),
  v.cleared.0,
  write_self pool.orders p empty_order,
  λ x ne. write-ne pool.orders p x empty_order ne,
)
  where
    agrees : All (λ x. write pool.orders p empty_order x ≡ pool.orders x) free
    agrees = write-agrees pool.orders p empty_order free v.free_distinct.0

-- `allocate` on a well-formed pool: null if and only if `capacity` slots are handed out, and then
-- nothing changes; else a slot that is not handed out, holding a default order, with every other
-- slot as it was and the pool well formed with that slot in use.
pub allocate-Allocated :
    (pool : OrderPool) (live free : List ℕ)
    → IsPool pool live free
    → Allocated pool live free (allocate pool)
unfolding allocate
allocate-Allocated pool live [] v =
    subst (λ q. Allocated pool live [] (take_slot pool q)) (sym v.links)
      (fresh-Allocated pool live v)
allocate-Allocated pool live (p ∷ free) v =
    subst (λ q. Allocated pool live (p ∷ free) (take_slot pool q)) (sym v.links.0)
      (reuse-Allocated pool live p free v)

-- `release` of a slot in use gives it back: it heads the free list as a default order, the other
-- slots in use are untouched, and the pool stays well formed.
pub release-IsPool :
    (pool : OrderPool) (xs : List ℕ) (p : ℕ) (ys free : List ℕ)
    → IsPool pool (xs ++ p ∷ ys) free
    → IsPool (release pool p) (xs ++ ys) (p ∷ free)
      × ((x : ℕ) → x ≢ p → (release pool p).orders x ≡ pool.orders x)
unfolding release
release-IsPool pool xs p ys free v = (
  record {
    links = (
      refl,
      rw (write_self h1 p _) (Linked-same pool.orders _ pool.free_head free agrees v.links),
    );
    count = omega (arith, v.count, length-append xs (p ∷ ys), length-append xs ys);
    fits = v.fits;
    live_below =
        All-append _ xs ys (All-left _ xs (p ∷ ys) v.live_below)
          (All-right _ xs (p ∷ ys) v.live_below).1;
    free_below = ((All-right _ xs (p ∷ ys) v.live_below).0, v.free_below);
    live_distinct = Distinct-join xs p ys v.live_distinct;
    free_distinct = (out, v.free_distinct);
    apart =
        All-append _ xs ys (Absent-join p free xs parts.1 (All-left _ xs (p ∷ ys) v.apart))
          (Absent-join p free ys parts.3 (All-right _ xs (p ∷ ys) v.apart).1);
    cleared = (
      ap unlinked (write_self h1 p _) ∙ ap unlinked (write_self pool.orders p empty_order),
      All-write (λ x o. unlinked o ≡ empty_order) h1 p _ free out
          (All-write (λ x o. unlinked o ≡ empty_order) pool.orders p empty_order free out
            v.cleared),
    );
    untouched = λ x h.
        others x (omega (arith, (All-right (λ x. x < pool.size) xs (p ∷ ys) v.live_below).0))
        ∙ v.untouched x h;
  },
  others,
)
  where
    h1 : Slots
    h1 = write pool.orders p empty_order

    parts :
        Distinct xs
        × Absent p xs
        × Distinct ys
        × Absent p ys
        × All (λ x. Absent x ys) xs
        × All (λ y. Absent y xs) ys
    parts = Distinct-split xs p ys v.live_distinct

    out : Absent p free
    out = (All-right _ xs (p ∷ ys) v.apart).0

    others : (x : ℕ) → x ≢ p → (release pool p).orders x ≡ pool.orders x
    others x ne = write-ne h1 p x _ ne ∙ write-ne pool.orders p x empty_order ne

    agrees : All (λ x. (release pool p).orders x ≡ pool.orders x) free
    agrees = All-map others free out
