-- ===== src/Prelude/Bits.antt =====
-- The bit operations of the program's words at variables: how they act on a low field and on the
-- rest of a number, and what a set or a cleared bit leaves of the others.
use Prim.Native.Nat.{
  ℕ, zero, suc, ◌+◌, ◌-◌, ◌*◌, ◌/◌, ◌%◌, ◌^◌, ◌≤◌, ◌<◌, min, max, bit_and, bit_or, bit_xor, digits,
  bitwise, differ, bit_and-bitwise, bit_or-bitwise, bit_xor-bitwise,
}
use mathlib.Core.Path.{◌≡◌, refl, ap, ◌∙◌}
use mathlib.Core.Logic.{◌≢◌}
use native.Mathlib.Nat.{pow-suc}
use native.Mathlib.Omega.{arith}

-- The digit recursion behind the operations has more fuel than it uses.
enough_fuel :
    (z : ℕ → ℕ) (f : ℕ → ℕ → ℕ) (k l x y : ℕ) → x ≤ k → x ≤ l → digits z f k x y ≡ digits z f l x y
enough_fuel z f zero zero x y h h' = refl
enough_fuel z f zero (suc l) zero y h h' = refl
enough_fuel z f zero (suc l) (suc x) y h h' = absurd (omega arith)
enough_fuel z f (suc k) zero zero y h h' = refl
enough_fuel z f (suc k) zero (suc x) y h h' = absurd (omega arith)
enough_fuel z f (suc k) (suc l) zero y h h' = refl
enough_fuel z f (suc k) (suc l) (suc x) y h h' =
    rw (enough_fuel z f k l (suc x / 2) (y / 2) (omega arith) (omega arith))

lowest_digit :
    (z : ℕ → ℕ) (f : ℕ → ℕ → ℕ) (x y : ℕ)
    → bitwise z f (suc x) y ≡ bitwise z f (suc x / 2) (y / 2) * 2 + f (suc x % 2) (y % 2)
lowest_digit z f x y =
    rw (enough_fuel z f x (suc x / 2) (suc x / 2) (y / 2) (omega arith) (omega arith))

pub bit_and_step : (x y : ℕ) → bit_and x y ≡ bit_and (x / 2) (y / 2) * 2 + min (x % 2) (y % 2)
bit_and_step zero y = simp bit_and-bitwise (omega arith)
bit_and_step (suc x) y = simp bit_and-bitwise (lowest_digit (λ b. 0) min x y)

pub bit_or_step : (x y : ℕ) → bit_or x y ≡ bit_or (x / 2) (y / 2) * 2 + max (x % 2) (y % 2)
bit_or_step zero y = simp bit_or-bitwise (omega arith)
bit_or_step (suc x) y = simp bit_or-bitwise (lowest_digit (λ b. b) max x y)

pub bit_xor_step : (x y : ℕ) → bit_xor x y ≡ bit_xor (x / 2) (y / 2) * 2 + differ (x % 2) (y % 2)
bit_xor_step zero y = simp bit_xor-bitwise (omega arith)
bit_xor_step (suc x) y = simp bit_xor-bitwise (lowest_digit (λ b. b) differ x y)

two_pow : (k q : ℕ) → 2 ^ suc k * q ≡ 2 * (2 ^ k * q)
two_pow k q = omega (arith, ap (λ (t : ℕ). t * q) (pow-suc 2 k))

-- Exclusive or acts on a low field of `k` bits and on the bits above it apart.
pub bit_xor_fields :
    (k q t r s : ℕ)
    → r < 2 ^ k
    → s < 2 ^ k
    → bit_xor (r + 2 ^ k * q) (s + 2 ^ k * t) ≡ bit_xor r s + 2 ^ k * bit_xor q t
bit_xor_fields zero q t r s hr hs = ground (arith, bit_xor_zero)
  where
    bit_xor_zero : bit_xor 0 0 ≡ 0
    bit_xor_zero = refl
bit_xor_fields (suc k) q t r s hr hs = ground (
  arith,
  bit_xor_step (r + 2 ^ suc k * q) (s + 2 ^ suc k * t),
  bit_xor_step r s,
  two_pow k q,
  two_pow k t,
  two_pow k 1,
  two_pow k (bit_xor q t),
  bit_xor_fields k q t (r / 2) (s / 2),
)

-- Bit `k` of a number.
abbrev pub bit_of : ℕ → ℕ → ℕ
bit_of zero x = x % 2
bit_of (suc k) x = bit_of k (x / 2)

pub bit_of-bit_and : (k x y : ℕ) → bit_of k (bit_and x y) ≡ min (bit_of k x) (bit_of k y)
bit_of-bit_and zero x y = omega (arith, bit_and_step x y)
bit_of-bit_and (suc k) x y =
    let e : bit_and x y / 2 ≡ bit_and (x / 2) (y / 2) = omega (arith, bit_and_step x y) in
    rw e (bit_of-bit_and k (x / 2) (y / 2))

pub bit_of-bit_or : (k x y : ℕ) → bit_of k (bit_or x y) ≡ max (bit_of k x) (bit_of k y)
bit_of-bit_or zero x y = omega (arith, bit_or_step x y)
bit_of-bit_or (suc k) x y =
    let e : bit_or x y / 2 ≡ bit_or (x / 2) (y / 2) = omega (arith, bit_or_step x y) in
    rw e (bit_of-bit_or k (x / 2) (y / 2))

pub bit_of-le-one : (k x : ℕ) → bit_of k x ≤ 1
bit_of-le-one zero x = omega arith
bit_of-le-one (suc k) x = bit_of-le-one k (x / 2)

bit_of_zero : (k : ℕ) → bit_of k 0 ≡ 0
bit_of_zero zero = refl
bit_of_zero (suc k) = bit_of_zero k

pow_half : (j : ℕ) → 2 ^ suc j / 2 ≡ 2 ^ j
pow_half j = omega (arith, pow-suc 2 j)

pub bit_of-pow_self : (j : ℕ) → bit_of j (2 ^ j) ≡ 1
bit_of-pow_self zero = refl
bit_of-pow_self (suc j) = rw (pow_half j) (bit_of-pow_self j)

pub bit_of-pow_ne : (k j : ℕ) → k ≢ j → bit_of k (2 ^ j) ≡ 0
bit_of-pow_ne zero zero h = absurd (h refl)
bit_of-pow_ne zero (suc j) h = omega (arith, pow-suc 2 j)
bit_of-pow_ne (suc k) zero h = bit_of_zero k
bit_of-pow_ne (suc k) (suc j) h = rw (pow_half j) (bit_of-pow_ne k j (λ e. h (ap suc e)))

-- A complement within `n` bits turns every bit over.
pub bit_of-complement : (k n x : ℕ) → k < n → x < 2 ^ n → bit_of k (2 ^ n - 1 - x) ≡ 1 - bit_of k x
bit_of-complement k zero x h hx = absurd (omega arith)
bit_of-complement zero (suc n) x h hx = omega (arith, pow-suc 2 n)
bit_of-complement (suc k) (suc n) x h hx =
    let e : (2 ^ suc n - 1 - x) / 2 ≡ 2 ^ n - 1 - x / 2 = omega (arith, pow-suc 2 n) in
    rw e (bit_of-complement k n (x / 2) (omega arith) (omega (arith, pow-suc 2 n)))

bit_and-zero_right : (n x : ℕ) → x ≤ n → bit_and x 0 ≡ 0
bit_and-zero_right n zero h = refl
bit_and-zero_right zero (suc x) h = absurd (omega arith)
bit_and-zero_right (suc n) (suc x) h =
    omega (arith, bit_and_step (suc x) 0, bit_and-zero_right n (suc x / 2) (omega arith))

-- A number under the mask of a single bit.
pub bit_and-pow : (j x : ℕ) → bit_and x (2 ^ j) ≡ bit_of j x * 2 ^ j
bit_and-pow zero x =
    omega (arith, bit_and_step x 1, bit_and-zero_right (x / 2) (x / 2) (omega arith))
bit_and-pow (suc j) x =
    let e : bit_and x (2 ^ suc j) ≡ bit_and (x / 2) (2 ^ suc j / 2) * 2 =
      omega (arith, bit_and_step x (2 ^ suc j), pow-suc 2 j) in
    omega (
      arith,
      e,
      ap (λ (t : ℕ). bit_and (x / 2) t) (pow_half j),
      bit_and-pow j (x / 2),
      ap (λ (t : ℕ). bit_of j (x / 2) * t) (pow-suc 2 j),
    )

differ_bits : (a b : ℕ) → a < 2 → b < 2 → (differ a b ≤ 1) × (differ (differ a b) b ≡ a)
differ_bits zero zero p q = (omega arith, refl)
differ_bits zero (suc zero) p q = (omega arith, refl)
differ_bits (suc zero) zero p q = (omega arith, refl)
differ_bits (suc zero) (suc zero) p q = (omega arith, refl)
differ_bits zero (suc (suc b)) p q = absurd (omega arith)
differ_bits (suc zero) (suc (suc b)) p q = absurd (omega arith)
differ_bits (suc (suc a)) b p q = absurd (omega arith)

-- Exclusive or stays within the width of its operands.
pub bit_xor-lt : (k x y : ℕ) → x < 2 ^ k → y < 2 ^ k → bit_xor x y < 2 ^ k
bit_xor-lt zero zero zero h h' = omega arith
bit_xor-lt zero zero (suc y) h h' = absurd (omega arith)
bit_xor-lt zero (suc x) y h h' = absurd (omega arith)
bit_xor-lt (suc k) x y h h' = omega (
  arith,
  bit_xor_step x y,
  pow-suc 2 k,
  bit_xor-lt k (x / 2) (y / 2) (omega (arith, pow-suc 2 k)) (omega (arith, pow-suc 2 k)),
  differ_bits (x % 2) (y % 2) (omega arith) (omega arith),
)

-- Taking the same exclusive or twice gives the number back.
pub bit_xor_twice : (k x y : ℕ) → x < 2 ^ k → y < 2 ^ k → bit_xor (bit_xor x y) y ≡ x
bit_xor_twice zero zero zero h h' = refl
bit_xor_twice zero zero (suc y) h h' = absurd (omega arith)
bit_xor_twice zero (suc x) y h h' = absurd (omega arith)
bit_xor_twice (suc k) x y h h' =
    let halves = differ_bits (x % 2) (y % 2) (omega arith) (omega arith) in
    let high : bit_xor x y / 2 ≡ bit_xor (x / 2) (y / 2) =
      omega (arith, bit_xor_step x y, halves) in
    let low : bit_xor x y % 2 ≡ differ (x % 2) (y % 2) = omega (arith, bit_xor_step x y, halves) in
    bit_xor_step (bit_xor x y) y
    ∙ (rw (high, low)
        (omega (
          arith,
          halves,
          bit_xor_twice k (x / 2) (y / 2) (omega (arith, pow-suc 2 k)) (omega (arith, pow-suc 2 k)),
        )))

pub bit_and-le : (n x y : ℕ) → x ≤ n → bit_and x y ≤ x
bit_and-le n zero y h = omega (arith, zero_left)
  where
    zero_left : bit_and 0 y ≡ 0
    zero_left = simp bit_and-bitwise
bit_and-le zero (suc x) y h = absurd (omega arith)
bit_and-le (suc n) (suc x) y h =
    omega (arith, bit_and_step (suc x) y, bit_and-le n (suc x / 2) (y / 2) (omega arith))
