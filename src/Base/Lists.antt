-- ===== src/Base/Lists.antt =====
-- Lists of addresses: length, the two ends, absence and distinctness by recursion.
use Prim.Native.Nat.{ℕ, zero, suc, ◌+◌}
use mathlib.Core.Path.{◌≡◌, refl, sym, ap}
use mathlib.Core.Logic.{◌≢◌, ◌⊎◌, inl, inr}
use mathlib.Core.Option.{Option, none, some}
use mathlib.Core.List.{List, [], ◌∷◌, ◌++◌}
use native.Mathlib.Omega.{arith}

module _ {ℓ} {A : Type ℓ} where
  abbrev pub length : List A → ℕ
  length [] = 0
  length (x ∷ xs) = suc (length xs)

  pub length-append : (xs ys : List A) → length (xs ++ ys) ≡ length xs + length ys
  length-append [] ys = omega arith
  length-append (x ∷ xs) ys = omega (arith, length-append xs ys)

  -- The first entry, or what follows the list.
  abbrev pub first : List A → Option A → Option A
  first [] d = d
  first (x ∷ xs) d = some x

  -- The last entry, or what precedes the list.
  abbrev pub last : Option A → List A → Option A
  last d [] = d
  last d (x ∷ xs) = last (some x) xs

  pub first-append : (xs ys : List A) (d : Option A) → first (xs ++ ys) d ≡ first xs (first ys d)
  first-append [] ys d = refl
  first-append (x ∷ xs) ys d = refl

  pub last-append : (d : Option A) (xs ys : List A) → last d (xs ++ ys) ≡ last (last d xs) ys
  last-append d [] ys = refl
  last-append d (x ∷ xs) ys = last-append (some x) xs ys

  pub last-some : (x : A) (xs : List A) → (z : A) × (last (some x) xs ≡ some z)
  last-some x [] = (x, refl)
  last-some x (y ∷ ys) = last-some y ys

  abbrev pub All {κ} : (A → Type κ) → List A → Type κ
  All P [] = Unit
  All P (x ∷ xs) = P x × All P xs

  pub All-append {κ} : (P : A → Type κ) (xs ys : List A) → All P xs → All P ys → All P (xs ++ ys)
  All-append P [] ys hx hy = hy
  All-append P (x ∷ xs) ys hx hy = (hx.0, All-append P xs ys hx.1 hy)

  pub All-left {κ} : (P : A → Type κ) (xs ys : List A) → All P (xs ++ ys) → All P xs
  All-left P [] ys h = tt
  All-left P (x ∷ xs) ys h = (h.0, All-left P xs ys h.1)

  pub All-right {κ} : (P : A → Type κ) (xs ys : List A) → All P (xs ++ ys) → All P ys
  All-right P [] ys h = h
  All-right P (x ∷ xs) ys h = All-right P xs ys h.1

  pub All-map {κ} : {P Q : A → Type κ} → ((a : A) → P a → Q a) → (xs : List A) → All P xs → All Q xs
  All-map f [] h = tt
  All-map f (x ∷ xs) h = (f x h.0, All-map f xs h.1)

-- The address does not occur in the list.
abbrev pub Absent : ℕ → List ℕ → Type 0
Absent a xs = All (λ x. x ≢ a) xs

abbrev pub Distinct : List ℕ → Type 0
Distinct [] = Unit
Distinct (x ∷ xs) = Absent x xs × Distinct xs

pub Distinct-left : (xs ys : List ℕ) → Distinct (xs ++ ys) → Distinct xs
Distinct-left [] ys h = tt
Distinct-left (x ∷ xs) ys h = (All-left _ xs ys h.0, Distinct-left xs ys h.1)

pub Distinct-right : (xs ys : List ℕ) → Distinct (xs ++ ys) → Distinct ys
Distinct-right [] ys h = h
Distinct-right (x ∷ xs) ys h = Distinct-right xs ys h.1

pub Distinct-snoc : (xs : List ℕ) (p : ℕ) → Distinct xs → Absent p xs → Distinct (xs ++ p ∷ [])
Distinct-snoc [] p d out = (tt, tt)
Distinct-snoc (x ∷ xs) p d out =
    (All-append _ xs (p ∷ []) d.0 (λ e. out.0 (sym e), tt), Distinct-snoc xs p d.1 out.1)

All-trivial : (ys : List ℕ) → All (λ y. Unit {0}) ys
All-trivial [] = tt
All-trivial (y ∷ ys) = (tt, All-trivial ys)

Absent-cons :
    (x : ℕ) (xs ys : List ℕ)
    → Absent x ys
    → All (λ y. Absent y xs) ys
    → All (λ y. Absent y (x ∷ xs)) ys
Absent-cons x xs [] out all = tt
Absent-cons x xs (y ∷ ys) out all = ((λ e. out.0 (sym e), all.0), Absent-cons x xs ys out.1 all.1)

-- The two parts of a list of distinct addresses around one of them.
pub Distinct-split :
    (xs : List ℕ) (p : ℕ) (ys : List ℕ)
    → Distinct (xs ++ p ∷ ys)
    → Distinct xs
      × Absent p xs
      × Distinct ys
      × Absent p ys
      × All (λ x. Absent x ys) xs
      × All (λ y. Absent y xs) ys
Distinct-split [] p ys d = (tt, tt, d.1, d.0, tt, All-trivial ys)
Distinct-split (x ∷ xs) p ys d =
    let r = Distinct-split xs p ys d.1 in
    let out = All-right (λ y. y ≢ x) xs (p ∷ ys) d.0 in
    (
      (All-left _ xs (p ∷ ys) d.0, r.0),
      (λ e. out.0 (sym e), r.1),
      r.2,
      r.3,
      (out.1, r.4),
      Absent-cons x xs ys out.1 r.5,
    )

pub Distinct-join :
    (xs : List ℕ) (p : ℕ) (ys : List ℕ) → Distinct (xs ++ p ∷ ys) → Distinct (xs ++ ys)
Distinct-join [] p ys d = d.1
Distinct-join (x ∷ xs) p ys d =
    let out = All-right (λ y. y ≢ x) xs (p ∷ ys) d.0 in
    (All-append _ xs ys (All-left _ xs (p ∷ ys) d.0) out.1, Distinct-join xs p ys d.1)

-- The element at an index, `none` from the length on.
abbrev pub get_elem? {ℓ} : {A : Type ℓ} → List A → ℕ → Option A
get_elem? [] i = none
get_elem? (a ∷ rest) zero = some a
get_elem? (a ∷ rest) (suc i) = get_elem? rest i

-- The address occurs in the list.
abbrev pub In : ℕ → List ℕ → Type 0
In x [] = ⊥
In x (y ∷ ys) = (x ≡ y) ⊎ In x ys

-- Where an address stands in a list.
abbrev pub Split : ℕ → List ℕ → Type 0
Split x xs = (ys : List ℕ) × (zs : List ℕ) × (xs ≡ ys ++ x ∷ zs)

pub In-split : (x : ℕ) (xs : List ℕ) → In x xs → Split x xs
In-split x [] m = absurd m
In-split x (y ∷ ys) (inl e) = ([], ys, rw e)
In-split x (y ∷ ys) (inr m) = let s = In-split x ys m in (y ∷ s.0, s.1, ap (λ zs. y ∷ zs) s.2)

pub In-without : (x p : ℕ) (xs ys : List ℕ) → x ≢ p → In x (xs ++ p ∷ ys) → In x (xs ++ ys)
In-without x p [] ys ne (inl e) = absurd (ne e)
In-without x p [] ys ne (inr m) = m
In-without x p (z ∷ xs) ys ne (inl e) = inl e
In-without x p (z ∷ xs) ys ne (inr m) = inr (In-without x p xs ys ne m)

pub All-in {κ} : (P : ℕ → Type κ) (xs : List ℕ) (x : ℕ) → All P xs → In x xs → P x
All-in P [] x all m = absurd m
All-in P (y ∷ ys) x all (inl e) = rw e all.0
All-in P (y ∷ ys) x all (inr m) = All-in P ys x all.1 m

pub All-tabulate {κ} : (P : ℕ → Type κ) (xs : List ℕ) → ((x : ℕ) → In x xs → P x) → All P xs
All-tabulate P [] f = tt
All-tabulate P (x ∷ xs) f = (f x (inl refl), All-tabulate P xs (λ y m. f y (inr m)))

pub All-both {κ} : (P Q : ℕ → Type κ) (xs : List ℕ) → All P xs → All Q xs → All (λ x. P x × Q x) xs
All-both P Q [] p q = tt
All-both P Q (x ∷ xs) p q = ((p.0, q.0), All-both P Q xs p.1 q.1)
