-- ===== src/Prelude/Text/Laws.antt =====
-- Laws of the searches, and the round trip of a number through its digits.
use zktls_bench.Prelude.Tests.{ltb, ◌==◌, Bool-cases}
use zktls_bench.Prelude.Lists.{length, length-append, All, All-append}
use zktls_bench.Prelude.Text.{
  pos, starts_with, find_text, c_string, to_digits, to_string, digits_value, skip_spaces,
  signed_value, atoi,
}
use Prim.Native.Nat.{ℕ, zero, suc, ◌+◌, ◌-◌, ◌*◌, ◌/◌, ◌%◌, ◌<◌, ◌≤◌}
use mathlib.Core.Path.{◌≡◌, refl, ap, ◌∙◌, sym}
use mathlib.Core.Logic.{◌≢◌, inl, inr}
use mathlib.Core.Bool.{true, false, ◌&&◌}
use mathlib.Core.Option.{none, some}
use mathlib.Core.List.{List, [], ◌∷◌, ◌++◌, append_assoc}
use native.Mathlib.Omega.{arith}

pub starts_with-append : (xs ys : List ℕ) → starts_with xs (xs ++ ys) ≡ true
unfolding starts_with
starts_with-append [] ys = refl
starts_with-append (x ∷ xs) ys = ground (arith, starts_with-append xs ys)

-- What follows a text that is long enough does not matter.
starts_with-long :
    (xs ys zs : List ℕ) → length xs ≤ length ys → starts_with xs (ys ++ zs) ≡ starts_with xs ys
unfolding starts_with
starts_with-long [] ys zs h = refl
starts_with-long (x ∷ xs) [] zs h = absurd (omega arith)
starts_with-long (x ∷ xs) (y ∷ ys) zs h =
    ap (λ b. (x == y) && b) (starts_with-long xs ys zs (omega arith))

-- A text that is first found behind `front` is found there whatever follows it.
pub find_text-append :
    (needle front rest : List ℕ)
    → find_text needle (front ++ needle) ≡ some (length front)
    → find_text needle (front ++ (needle ++ rest)) ≡ some (length front)
unfolding find_text
find_text-append [] [] [] h = h
find_text-append [] [] (r ∷ rest) h = cc
find_text-append (n ∷ needle) [] rest h = rw (starts_with-append (n ∷ needle) rest) refl
find_text-append needle (x ∷ front) rest h =
    let assoc : front ++ (needle ++ rest) ≡ (front ++ needle) ++ rest =
      sym (append_assoc front needle rest) in
    ground (
      arith,
      assoc,
      starts_with-long needle (x ∷ (front ++ needle)) rest
          (omega (arith, length-append front needle)),
      find_text-append needle front rest,
    )

pub c_string-append :
    (text rest : List ℕ) → All (λ c. c ≢ 0) text → c_string (text ++ (0 ∷ rest)) ≡ some text
unfolding c_string
c_string-append [] rest h = refl
c_string-append (c ∷ text) rest h =
    let ne : (c == 0) ≡ false = ground (arith, h.0) in rw (ne, c_string-append text rest h.1) refl

-- A text whose first byte does not stand before it is first found there.
pub find_text-absent :
    (c : ℕ) (cs front rest : List ℕ)
    → All (λ x. x ≢ c) front
    → find_text (c ∷ cs) (front ++ ((c ∷ cs) ++ rest)) ≡ some (length front)
unfolding find_text starts_with
find_text-absent c cs [] rest h = ground (arith, starts_with-append cs rest)
find_text-absent c cs (x ∷ front) rest h = ground (arith, h.0, find_text-absent c cs front rest h.1)

pub find_text-none :
    (c : ℕ) (text : List ℕ) → All (λ x. x ≢ c) text → find_text (c ∷ []) text ≡ none
unfolding find_text starts_with
find_text-none c [] h = refl
find_text-none c (x ∷ text) h = ground (arith, h.0, find_text-none c text h.1)

abbrev pub IsDigit : ℕ → Type 0
IsDigit c = (48 ≤ c) × (c ≤ 57)

All-IsDigit-to_digits : (fuel n : ℕ) → All IsDigit (to_digits fuel n)
unfolding to_digits
All-IsDigit-to_digits zero n = tt
All-IsDigit-to_digits (suc fuel) n = elim (Bool-cases (ltb n 10)) [
  | inl small ↦ rw small (ground arith, tt)
  | inr more ↦ rw more (
      All-append IsDigit (to_digits fuel (n / 10)) _ (All-IsDigit-to_digits fuel (n / 10))
        ((omega arith, omega arith), tt))
]

pub All-IsDigit-to_string : (n : ℕ) → All IsDigit (to_string n)
unfolding to_string
All-IsDigit-to_string n = All-IsDigit-to_digits (suc n) n

digits_value-append :
    (acc : ℕ) (ds rest : List ℕ)
    → All IsDigit ds
    → digits_value acc (ds ++ rest) ≡ digits_value (digits_value acc ds) rest
unfolding digits_value
digits_value-append acc [] rest h = refl
digits_value-append acc (c ∷ ds) rest h =
    ground (arith, h.0, digits_value-append (acc * 10 + (c - 48)) ds rest h.1)

one_digit : (acc d : ℕ) → d < 10 → digits_value acc ((48 + d) ∷ []) ≡ acc * 10 + d
unfolding digits_value
one_digit acc d h = ground arith

digits_value-to_digits : (fuel n : ℕ) → n < fuel → digits_value 0 (to_digits fuel n) ≡ n
unfolding to_digits
digits_value-to_digits zero n h = absurd (omega arith)
digits_value-to_digits (suc fuel) n h = elim (Bool-cases (ltb n 10)) [
  | inl small ↦ rw small (omega (arith, one_digit 0 n (ground arith)))
  | inr more ↦
      let front = to_digits fuel (n / 10) in
      rw
        (
          more,
          digits_value-append 0 front ((48 + n % 10) ∷ []) (All-IsDigit-to_digits fuel (n / 10)),
          digits_value-to_digits fuel (n / 10) (ground arith),
        )
        (ground (arith, one_digit (n / 10) (n % 10)))
]

-- A number read back from its digits.
pub digits_value-to_string : (n : ℕ) → digits_value 0 (to_string n) ≡ n
unfolding to_string
digits_value-to_string n = digits_value-to_digits (suc n) n (omega arith)

-- atoi on digits
pub atoi-digits :
    (ds : List ℕ)
    → All IsDigit ds
    → digits_value 0 ds ≤ 2147483647
    → atoi ds ≡ some (pos (digits_value 0 ds))
unfolding atoi skip_spaces signed_value
atoi-digits [] h small = refl
atoi-digits (c ∷ ds) h small = ground (arith, h.0)

-- atoi undoes to_string on an int that is not negative.
pub atoi-to_string : (n : ℕ) → n ≤ 2147483647 → atoi (to_string n) ≡ some (pos n)
atoi-to_string n h =
    let value = digits_value-to_string n in
    atoi-digits (to_string n) (All-IsDigit-to_string n) (omega (arith, value))
    ∙ ap (λ k. some (pos k)) value
