-- ===== src/Ws/Base64.antt =====
-- `base64_encode` of network/ws.cpp, with which the server answers the key of a handshake.
use zktls_bench.Prelude.{
  ℕ, zero, suc, ◌+◌, ◌-◌, ◌*◌, ◌/◌, ◌%◌, ◌<◌, ◌≡◌, refl, Bool, true, false, not, ap, ap₂, ◌&&◌,
  List, [], ◌∷◌, ◌++◌, leb, ◌==◌, if◌then◌else◌, get_or, length, arith, All,
}
use native.Mathlib.Decide.{ℕ_discrete}
use zktls_bench.Prelude.Bytes.{IsByte}

-- The table `b64`.
abbrev b64 : List ℕ
b64 =
    65 ∷ 66 ∷ 67 ∷ 68 ∷ 69 ∷ 70 ∷ 71 ∷ 72 ∷ 73 ∷ 74 ∷ 75 ∷ 76 ∷ 77 ∷ 78 ∷ 79 ∷ 80 ∷ 81 ∷ 82 ∷ 83
    ∷ 84 ∷ 85 ∷ 86 ∷ 87 ∷ 88 ∷ 89 ∷ 90 ∷ 97 ∷ 98 ∷ 99 ∷ 100 ∷ 101 ∷ 102 ∷ 103 ∷ 104 ∷ 105 ∷ 106
    ∷ 107 ∷ 108 ∷ 109 ∷ 110 ∷ 111 ∷ 112 ∷ 113 ∷ 114 ∷ 115 ∷ 116 ∷ 117 ∷ 118 ∷ 119 ∷ 120 ∷ 121 ∷ 122
    ∷ 48 ∷ 49 ∷ 50 ∷ 51 ∷ 52 ∷ 53 ∷ 54 ∷ 55 ∷ 56 ∷ 57 ∷ 43 ∷ 47 ∷ []

unfoldable pub digit : ℕ → ℕ
digit i = get_or b64 i 0

-- The bytes of the word that is stored for three bytes `e`, on a little-endian host.
unfoldable pub encode_word : ℕ → List ℕ
encode_word e =
    digit (e / 262144) ∷ digit (e / 4096 % 64) ∷ digit (e / 64 % 64) ∷ digit (e % 64) ∷ []

-- The `=` signs are written over the last bytes of the last word.
unfoldable pub base64_encode : List ℕ → List ℕ
unfolding encode_word
base64_encode [] = []
base64_encode (a ∷ []) = digit (a * 65536 / 262144) ∷ digit (a * 65536 / 4096 % 64) ∷ 61 ∷ 61 ∷ []
base64_encode (a ∷ b ∷ []) =
    digit ((a * 65536 + b * 256) / 262144)
    ∷ digit ((a * 65536 + b * 256) / 4096 % 64)
    ∷ digit ((a * 65536 + b * 256) / 64 % 64)
    ∷ 61
    ∷ []
base64_encode (a ∷ b ∷ c ∷ bytes) = encode_word (a * 65536 + b * 256 + c) ++ base64_encode bytes

-- The value of a base64 digit, by the ranges of RFC 4648.
unfoldable pub value : ℕ → ℕ
value d =
    if leb 97 d
    then d - 71
    else if leb 65 d
    then d - 65
    else if leb 48 d
    then d + 4
    else if d == 43
    then 62
    else 63

-- What a reader of base64 makes of it.
unfoldable pub decode : List ℕ → List ℕ
decode (p ∷ q ∷ r ∷ s ∷ text) =
    let e = value p * 262144 + value q * 4096 in
    if r == 61
    then e / 65536 ∷ []
    else if s == 61
    then e / 65536 ∷ (e + value r * 64) / 256 % 256 ∷ []
    else e / 65536
      ∷ (e + value r * 64) / 256 % 256
      ∷ (e + value r * 64 + value s) % 256
      ∷ decode text
decode text = []

every : ℕ → (ℕ → Bool) → Bool
every zero f = true
every (suc n) f = f n && every n f

and_true : (a b : Bool) → (a && b) ≡ true → (a ≡ true) × (b ≡ true)
and_true true b h = (refl, h)
and_true false b h = absurd (ground (arith, h))

every_lem : (n : ℕ) (f : ℕ → Bool) → every n f ≡ true → (i : ℕ) → i < n → f i ≡ true
unfolding every
every_lem zero f h i lt = absurd (omega arith)
every_lem (suc n) f h i lt = elim (ℕ_discrete i n) [
  | yes e ↦ rw e (and_true (f n) (every n f) h).0
  | no d ↦ every_lem n f (and_true (f n) (every n f) h).1 i (omega (arith, d))
]

table : every 64 (λ i. (value (digit i) == i) && not (digit i == 61)) ≡ true
unfolding every value digit
table = refl

value-digit : (i : ℕ) → i < 64 → value (digit i) ≡ i
value-digit i h =
    let t = (and_true (value (digit i) == i) (not (digit i == 61)) (every_lem 64 _ table i h)).0 in
    ground (arith, t)

digit_not_sign : (i : ℕ) → i < 64 → (digit i == 61) ≡ false
digit_not_sign i h =
    let t = (and_true (value (digit i) == i) (not (digit i == 61)) (every_lem 64 _ table i h)).1 in
    ground (arith, t)

-- A reader of base64 gets the bytes back, and the text has four bytes for every three that were
-- begun: for the 20 bytes of a SHA-1 digest the 28 bytes that the handshake has room for.
pub decode-base64_encode :
    (bytes : List ℕ)
    → All IsByte bytes
    → (decode (base64_encode bytes) ≡ bytes)
      × (length (base64_encode bytes) ≡ 4 * ((length bytes + 2) / 3))
unfolding decode base64_encode
decode-base64_encode [] h = (refl, refl)
decode-base64_encode (a ∷ []) h =
    rw
      (
        value-digit (a * 65536 / 262144) (omega (arith, h.0)),
        value-digit (a * 65536 / 4096 % 64) (omega arith),
      )
      (ap (λ x. x ∷ []) (omega (arith, h.0)), refl)
decode-base64_encode (a ∷ b ∷ []) h =
    let e : ℕ = a * 65536 + b * 256 in
    rw
      (
        value-digit (e / 262144) (omega (arith, h.0, h.1.0)),
        value-digit (e / 4096 % 64) (omega arith),
        value-digit (e / 64 % 64) (omega arith),
        digit_not_sign (e / 64 % 64) (omega arith),
      )
      (ap₂ (λ x y. x ∷ y ∷ []) (omega (arith, h.0, h.1.0)) (omega (arith, h.0, h.1.0)), refl)
decode-base64_encode (a ∷ b ∷ c ∷ bytes) h =
    let e : ℕ = a * 65536 + b * 256 + c in
    let rest = decode-base64_encode bytes h.1.1.1 in
    rw
      (
        value-digit (e / 262144) (omega (arith, h.0, h.1.0, h.1.1.0)),
        value-digit (e / 4096 % 64) (omega arith),
        value-digit (e / 64 % 64) (omega arith),
        value-digit (e % 64) (omega arith),
        digit_not_sign (e / 64 % 64) (omega arith),
        digit_not_sign (e % 64) (omega arith),
        rest.0,
      )
      (
        ap₂ ◌∷◌ (omega (arith, h.0, h.1.0, h.1.1.0)) (
            ap₂ (λ y z. y ∷ z ∷ bytes) (omega (arith, h.0, h.1.0, h.1.1.0))
              (omega (arith, h.0, h.1.0, h.1.1.0))),
        omega (arith, rest.1),
      )
