-- ===== src/Base/Bits.antt =====
-- Laws of the bit operations at variables: masks, shifted masks, disjoint unions, and the
-- cancellation of exclusive or. The native operations are a recursion on binary digits.
use Prim.Native.Nat.{
  ℕ, zero, suc, ◌+◌, ◌-◌, ◌*◌, ◌/◌, ◌%◌, ◌^◌, ◌≤◌, ◌<◌, min, max, digits, bit_and, bit_or, bit_xor,
  bit_and-bitwise, bit_or-bitwise, bit_xor-bitwise, differ,
}
use mathlib.Core.Path.{◌≡◌, refl, ap, ◌∙◌}
use native.Mathlib.Nat.{
  div-div-eq-div-mul, div-add-mod, mul-add-mod_self_left, mod-eq_of_lt, mod-lt, pow-suc,
}
use native.Mathlib.Omega.{arith}

module _ (z : ℕ → ℕ) (f : ℕ → ℕ → ℕ) where
  -- Any two counts of digits that reach past the first number agree.
  count_agree : (n m a b : ℕ) → a ≤ n → a ≤ m → digits z f n a b ≡ digits z f m a b
  count_agree zero zero zero b h k = refl
  count_agree zero (suc m) zero b h k = refl
  count_agree (suc n) zero zero b h k = refl
  count_agree (suc n) (suc m) zero b h k = refl
  count_agree zero m (suc a) b h k = absurd (omega arith)
  count_agree (suc n) zero (suc a) b h k = absurd (omega arith)
  count_agree (suc n) (suc m) (suc a) b h k =
      ap (λ t. t * 2 + f (suc a % 2) (b % 2))
        (count_agree n m (suc a / 2) (b / 2) (omega arith) (omega arith))

  -- The lowest digit, where the first number has not run out.
  lowest_digit :
      (a b : ℕ)
      → digits z f (suc a) (suc a) b
        ≡ digits z f (suc a / 2) (suc a / 2) (b / 2) * 2 + f (suc a % 2) (b % 2)
  lowest_digit a b =
      ap (λ t. t * 2 + f (suc a % 2) (b % 2))
        (count_agree a (suc a / 2) (suc a / 2) (b / 2) (omega arith) (omega arith))

pub bit_and-step : (a b : ℕ) → bit_and a b ≡ bit_and (a / 2) (b / 2) * 2 + min (a % 2) (b % 2)
bit_and-step zero b = omega (arith, bit_and-bitwise 0 b, bit_and-bitwise 0 (b / 2))
bit_and-step (suc a) b = omega (
  arith,
  bit_and-bitwise (suc a) b,
  bit_and-bitwise (suc a / 2) (b / 2),
  lowest_digit (λ b. 0) min a b,
)

pub bit_or-step : (a b : ℕ) → bit_or a b ≡ bit_or (a / 2) (b / 2) * 2 + max (a % 2) (b % 2)
bit_or-step zero b = omega (arith, bit_or-bitwise 0 b, bit_or-bitwise 0 (b / 2))
bit_or-step (suc a) b = omega (
  arith,
  bit_or-bitwise (suc a) b,
  bit_or-bitwise (suc a / 2) (b / 2),
  lowest_digit (λ b. b) max a b,
)

pub bit_xor-step : (a b : ℕ) → bit_xor a b ≡ bit_xor (a / 2) (b / 2) * 2 + differ (a % 2) (b % 2)
bit_xor-step zero b = omega (arith, bit_xor-bitwise 0 b, bit_xor-bitwise 0 (b / 2))
bit_xor-step (suc a) b = omega (
  arith,
  bit_xor-bitwise (suc a) b,
  bit_xor-bitwise (suc a / 2) (b / 2),
  lowest_digit (λ b. b) differ a b,
)

pub pow_pos : (k : ℕ) → 0 < 2 ^ k
pow_pos zero = omega arith
pow_pos (suc k) = omega (arith, pow_pos k, pow-suc 2 k)

bit_and-zero_below : (n a : ℕ) → a ≤ n → bit_and a 0 ≡ 0
bit_and-zero_below n zero h = refl
bit_and-zero_below zero (suc a) h = absurd (omega arith)
bit_and-zero_below (suc n) (suc a) h =
    omega (arith, bit_and-step (suc a) 0, bit_and-zero_below n (suc a / 2) (omega arith))

pub bit_and-zero : (a : ℕ) → bit_and a 0 ≡ 0
bit_and-zero a = bit_and-zero_below a a (omega arith)

-- The remainder by an even number, digit by digit.
mod_double : (a p : ℕ) → 0 < p → a % (2 * p) ≡ a / 2 % p * 2 + a % 2
mod_double a p h =
    let r = a / 2 % p * 2 + a % 2 in
    let split : a ≡ 2 * p * (a / 2 / p) + r = omega (arith, div-add-mod (a / 2) p) in
    let small : r < 2 * p = omega (arith, mod-lt (a / 2) h) in
    ap (λ t. t % (2 * p)) split ∙ mul-add-mod_self_left (2 * p) (a / 2 / p) r ∙ mod-eq_of_lt small

-- x & (2^k - 1)
pub bit_and-ones : (k a : ℕ) → bit_and a (2 ^ k - 1) ≡ a % 2 ^ k
bit_and-ones zero a = omega (arith, bit_and-zero a)
bit_and-ones (suc k) a =
    let p = 2 ^ k in
    let e : 2 ^ suc k ≡ 2 * p = omega (arith, pow-suc 2 k) in
    let half : (2 * p - 1) / 2 ≡ p - 1 = omega (arith, pow_pos k) in
    rw e (
      omega (
        arith,
        pow_pos k,
        bit_and-step a (2 * p - 1),
        ap (bit_and (a / 2)) half,
        bit_and-ones k (a / 2),
        mod_double a p (pow_pos k),
      ))

-- x & (m << k)
pub bit_and-shifted : (k a m : ℕ) → bit_and a (m * 2 ^ k) ≡ bit_and (a / 2 ^ k) m * 2 ^ k
bit_and-shifted zero a m =
    let e : m * 1 ≡ m = omega arith in let f : a / 1 ≡ a = omega arith in rw (e, f) (omega arith)
bit_and-shifted (suc k) a m =
    let p = 2 ^ k in
    let e : m * 2 ^ suc k ≡ 2 * (m * p) = omega (arith, ap (λ t. m * t) (pow-suc 2 k)) in
    let half : 2 * (m * p) / 2 ≡ m * p = omega arith in
    let q : a / 2 / p ≡ a / 2 ^ suc k =
      div-div-eq-div-mul a 2 p ∙ ap (λ t. a / t) (omega (arith, pow-suc 2 k)) in
    rw e (
      omega (
        arith,
        bit_and-step a (2 * (m * p)),
        ap (bit_and (a / 2)) half,
        bit_and-shifted k (a / 2) m,
        ap (λ t. bit_and t m * p) q,
        ap (λ t. bit_and (a / 2 ^ suc k) m * t) (pow-suc 2 k),
      ))

zero-bit_or : (y : ℕ) → bit_or 0 y ≡ y
zero-bit_or y = bit_or-bitwise 0 y

bit_or-zero_below : (n a : ℕ) → a ≤ n → bit_or a 0 ≡ a
bit_or-zero_below n zero h = refl
bit_or-zero_below zero (suc a) h = absurd (omega arith)
bit_or-zero_below (suc n) (suc a) h =
    omega (arith, bit_or-step (suc a) 0, bit_or-zero_below n (suc a / 2) (omega arith))

-- (x << k) | y, where y fits the low k bits
pub bit_or-disjoint : (k x y : ℕ) → y < 2 ^ k → bit_or (x * 2 ^ k) y ≡ x * 2 ^ k + y
bit_or-disjoint zero x y h =
    let e : y ≡ 0 = omega arith in
    let f : x * 1 ≡ x = omega arith in
    rw (e, f) (omega (arith, bit_or-zero_below x x (omega arith)))
bit_or-disjoint (suc k) x y h =
    let p = 2 ^ k in
    let e : x * 2 ^ suc k ≡ 2 * (x * p) = omega (arith, ap (λ t. x * t) (pow-suc 2 k)) in
    let half : 2 * (x * p) / 2 ≡ x * p = omega arith in
    rw e (
      omega (
        arith,
        bit_or-step (2 * (x * p)) y,
        ap (λ t. bit_or t (y / 2)) half,
        bit_or-disjoint k x (y / 2) (omega (arith, pow-suc 2 k)),
      ))

differ_cancel : (a b : ℕ) → a < 2 → b < 2 → differ a (differ a b) ≡ b
differ_cancel zero b h k = refl
differ_cancel (suc zero) zero h k = refl
differ_cancel (suc zero) (suc zero) h k = refl
differ_cancel (suc zero) (suc (suc b)) h k = absurd (omega arith)
differ_cancel (suc (suc a)) b h k = absurd (omega arith)

differ-lt : (a b : ℕ) → a < 2 → b < 2 → differ a b < 2
differ-lt zero b h k = k
differ-lt (suc zero) zero h k = omega arith
differ-lt (suc zero) (suc zero) h k = omega arith
differ-lt (suc zero) (suc (suc b)) h k = absurd (omega arith)
differ-lt (suc (suc a)) b h k = absurd (omega arith)

zero-bit_xor : (y : ℕ) → bit_xor 0 y ≡ y
zero-bit_xor y = bit_xor-bitwise 0 y

bit_xor_cancel_below : (n a b : ℕ) → a ≤ n → bit_xor a (bit_xor a b) ≡ b
bit_xor_cancel_below n zero b h = zero-bit_xor (bit_xor 0 b) ∙ zero-bit_xor b
bit_xor_cancel_below zero (suc a) b h = absurd (omega arith)
bit_xor_cancel_below (suc n) (suc a) b h =
    let x = suc a in
    let inner = bit_xor (x / 2) (b / 2) in
    let d = differ (x % 2) (b % 2) in
    let small : d < 2 = differ-lt (x % 2) (b % 2) (omega arith) (omega arith) in
    let half : (inner * 2 + d) / 2 ≡ inner = omega arith in
    let low : (inner * 2 + d) % 2 ≡ d = omega arith in
    rw (bit_xor-step x b) (
      omega (
        arith,
        bit_xor-step x (inner * 2 + d),
        ap (bit_xor (x / 2)) half,
        ap (differ (x % 2)) low,
        bit_xor_cancel_below n (x / 2) (b / 2) (omega arith),
        differ_cancel (x % 2) (b % 2) (omega arith) (omega arith),
      ))

-- a ^ (a ^ b) is b.
pub bit_xor_cancel : (a b : ℕ) → bit_xor a (bit_xor a b) ≡ b
bit_xor_cancel a b = bit_xor_cancel_below a a b (omega arith)
