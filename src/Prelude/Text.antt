-- ===== src/Prelude/Text.antt =====
-- Texts as lists of bytes: the searches of std::string and string.h, to_string and atoi.
pub mod Laws
use Prim.Native.Char.{code}
use Prim.Native.String.{String}
use zktls_bench.Prelude.Tests.{ltb, leb, ◌==◌, if◌then◌else◌}
use zktls_bench.Prelude.Lists.{length}
use Prim.Native.Nat.{ℕ, zero, suc, ◌+◌, ◌-◌, ◌*◌, ◌/◌, ◌%◌}
use mathlib.Core.Bool.{Bool, true, false, ◌&&◌, ◌||◌}
use mathlib.Core.Option.{Option, none, some}
use mathlib.Core.List.{List, [], ◌∷◌, ◌++◌}

-- The bytes of an ASCII text.
abbrev pub codes : String → List ℕ
codes String.[] = []
codes (String.◌∷◌ c s) = code c ∷ codes s

-- `negsuc n` is -(n + 1).
pub data ℤ : Type 0 where
  pos : ℕ → ℤ
  negsuc : ℕ → ℤ

unfoldable pub starts_with : List ℕ → List ℕ → Bool
starts_with [] text = true
starts_with (x ∷ xs) [] = false
starts_with (x ∷ xs) (y ∷ ys) = (x == y) && starts_with xs ys

abbrev pub succ? : Option ℕ → Option ℕ
succ? none = none
succ? (some i) = some (suc i)

-- The first place of a text in another, which is not empty.
unfoldable pub find_text : List ℕ → List ℕ → Option ℕ
find_text needle [] = none
find_text needle (x ∷ xs) =
    let behind = find_text needle xs in if starts_with needle (x ∷ xs) then some 0 else succ? behind

-- The bytes before the terminating NUL of a block; `none` if there is no NUL.
unfoldable pub c_string : List ℕ → Option (List ℕ)
c_string [] = none
c_string (x ∷ xs) =
    let rest = c_string xs in
    if x == 0 then some [] else elim rest [ none ↦ none | some s ↦ some (x ∷ s) ]

abbrev pub is_digit : ℕ → Bool
is_digit c = leb 48 c && leb c 57

abbrev is_space : ℕ → Bool
is_space c = (c == 32) || (leb 9 c && leb c 13)

-- The digits of a number, with fuel for each and one.
unfoldable pub to_digits : ℕ → ℕ → List ℕ
to_digits zero n = []
to_digits (suc fuel) n =
    let front = to_digits fuel (n / 10) in
    if ltb n 10 then (48 + n) ∷ [] else front ++ ((48 + n % 10) ∷ [])

-- std::to_string
unfoldable pub to_string : ℕ → List ℕ
unfolding to_digits
to_string n = to_digits (suc n) n

unfoldable pub digits_value : ℕ → List ℕ → ℕ
digits_value acc [] = acc
digits_value acc (c ∷ cs) =
    let more = digits_value (acc * 10 + (c - 48)) cs in if is_digit c then more else acc

unfoldable pub skip_spaces : List ℕ → List ℕ
skip_spaces [] = []
skip_spaces (c ∷ cs) = if is_space c then skip_spaces cs else c ∷ cs

abbrev negated : ℕ → ℤ
negated zero = pos 0
negated (suc n) = negsuc n

-- A value that is no int is undefined behaviour, `none`.
unfoldable pub signed_value : List ℕ → Option ℤ
unfolding digits_value
signed_value [] = some (pos 0)
signed_value (c ∷ cs) =
    if c == 45
    then if leb (digits_value 0 cs) 2147483648 then some (negated (digits_value 0 cs)) else none
    else if c == 43
    then if leb (digits_value 0 cs) 2147483647 then some (pos (digits_value 0 cs)) else none
    else if leb (digits_value 0 (c ∷ cs)) 2147483647
    then some (pos (digits_value 0 (c ∷ cs)))
    else none

unfoldable pub atoi : List ℕ → Option ℤ
unfolding skip_spaces signed_value
atoi text = signed_value (skip_spaces text)
