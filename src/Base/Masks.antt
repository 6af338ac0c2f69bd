-- ===== src/Base/Masks.antt =====
-- Masks of low bits.
use Prim.Native.Nat.{
  ℕ, zero, suc, ◌+◌, ◌-◌, ◌*◌, ◌/◌, ◌%◌, ◌^◌, ◌≤◌, ◌<◌, min, bit_and, digits, bit_and-bitwise,
}
use mathlib.Core.Path.{◌≡◌, sym, ap, ◌∙◌}
use native.Mathlib.Nat.{
  add-mul-mod_self_left, mod-eq_of_lt, mod-lt, mod-add-div, mul_assoc, mul_comm, zero-mod, pow-suc,
  one-le-pow, mod-add-mod, mod-eq-sub-mod,
}
use mathlib.Core.Logic.{◌≢◌, inl, inr}
use sixchange.Base.Tests.{Bool-cases, ltb, ltb→lt, not_ltb→le}
use native.Mathlib.Omega.{arith}

mod_double : (p a : ℕ) → 0 < p → a / 2 % p * 2 + a % 2 ≡ a % (p * 2)
mod_double p a pos =
    let r = a / 2 % p in
    let q = a / 2 / p in
    let small : r * 2 + a % 2 < p * 2 = omega (arith, mod-lt (a / 2) pos) in
    let split : a ≡ (r * 2 + a % 2) + p * 2 * q =
      omega (arith, mod-add-div (a / 2) p, mul_assoc p 2 q, mul_comm 2 q, mul_assoc p q 2) in
    sym (
      ap (λ n. n % (p * 2)) split
      ∙ add-mul-mod_self_left (r * 2 + a % 2) (p * 2) q
      ∙ mod-eq_of_lt small)

-- The low digits, by as many steps as the number has digits.
digits-mask : (n a k : ℕ) → a ≤ n → digits (λ b. zero) min n a (2 ^ k - 1) ≡ a % 2 ^ k
digits-mask zero zero k h = sym (zero-mod (2 ^ k))
digits-mask zero (suc a) k h = absurd (omega arith)
digits-mask (suc n) zero k h = sym (zero-mod (2 ^ k))
digits-mask (suc n) (suc a) zero h = omega (arith, digits-mask n (suc a / 2) 0 (omega arith))
digits-mask (suc n) (suc a) (suc k) h =
    let low = digits-mask n (suc a / 2) k (omega arith) in
    let pow = pow-suc 2 k in
    let pos = one-le-pow k 2 (omega arith) in
    let half : (2 ^ suc k - 1) / 2 ≡ 2 ^ k - 1 = omega (arith, pow, pos) in
    let odd : (2 ^ suc k - 1) % 2 ≡ 1 = omega (arith, pow, pos) in
    rw (half, odd, low) (omega (arith, mod_double (2 ^ k) (suc a) pos, ap (λ p. suc a % p) pow))

pub bit_and-mask : (a k : ℕ) → bit_and a (2 ^ k - 1) ≡ a % 2 ^ k
bit_and-mask a k = bit_and-bitwise a (2 ^ k - 1) ∙ digits-mask a a k (omega arith)

pow_split : (k j : ℕ) → 2 ^ (k + j) ≡ 2 ^ k * 2 ^ j
pow_split zero j = let sum : zero + j ≡ j = omega arith in omega (arith, ap (λ n. 2 ^ n) sum)
pow_split (suc k) j =
    let pull = mul_assoc (2 ^ k) 2 (2 ^ j) in
    let swap = mul_comm 2 (2 ^ j) in
    let push = mul_assoc (2 ^ k) (2 ^ j) 2 in
    let sum : suc k + j ≡ suc (k + j) = omega arith in
    let more = ap (λ n. 2 ^ n) sum ∙ pow-suc 2 (k + j) in
    let first = ap (λ n. n * 2 ^ j) (pow-suc 2 k) in
    let rest = ap (λ n. n * 2) (pow_split k j) in
    omega (arith, pull, swap, push, more, first, rest, ap (λ n. 2 ^ k * n) swap)

-- A number that wraps at 2 ^ 64 keeps its low digits.
pub mod-mod_pow : (n k : ℕ) → k ≤ 64 → n % 2 ^ 64 % 2 ^ k ≡ n % 2 ^ k
mod-mod_pow n k le =
    let q = n / 2 ^ 64 in
    let sum : 64 ≡ k + (64 - k) = omega (arith, le) in
    let whole : 2 ^ 64 ≡ 2 ^ k * 2 ^ (64 - k) = ap (λ j. 2 ^ j) sum ∙ pow_split k (64 - k) in
    let split : n ≡ n % 2 ^ 64 + 2 ^ k * (2 ^ (64 - k) * q) =
      sym (mod-add-div n (2 ^ 64))
      ∙ ap (λ j. n % 2 ^ 64 + j) (ap (λ j. j * q) whole ∙ mul_assoc (2 ^ k) (2 ^ (64 - k)) q) in
    sym (ap (λ j. j % 2 ^ k) split ∙ add-mul-mod_self_left (n % 2 ^ 64) (2 ^ k) (2 ^ (64 - k) * q))

-- Numbers that are less than `p` apart differ by it.
pub mod-ne : (m d p : ℕ) → 0 < d → d < p → (m + d) % p ≢ m % p
mod-ne m d p pos small e =
    let r = m % p in
    let below : r < p = mod-lt m (omega arith) in
    let sum : (r + d) % p ≡ r = mod-add-mod m p d ∙ e in
    elim (Bool-cases (ltb (r + d) p)) [
      | inl under ↦ omega (arith, sum, mod-eq_of_lt (ltb→lt (r + d) p under))
      | inr over ↦
          let le = not_ltb→le (r + d) p over in
          let left : (r + d - p) % p ≡ r + d - p = mod-eq_of_lt (omega (arith, le, below, small)) in
          omega (arith, sum, left, le, mod-eq-sub-mod le)
    ]
