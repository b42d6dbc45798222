-- ===== src/Prelude/Bytes.antt =====
-- Byte strings: integers as bytes in both orders, on a little-endian host, and the byte-order
-- conversions of arpa/inet.h and of network/ws.cpp.
use mathlib.Core.List.{reverse}
use native.Mathlib.Nat.{pow-suc}
use zktls_bench.Prelude.Lists.{length, All}
use Prim.Native.Nat.{ℕ, zero, suc, ◌+◌, ◌*◌, ◌/◌, ◌%◌, ◌^◌, ◌<◌}
use mathlib.Core.Path.{◌≡◌, refl, ap, ◌∙◌}
use mathlib.Core.List.{List, [], ◌∷◌}
use native.Mathlib.Omega.{arith}

abbrev pub IsByte : ℕ → Type 0
IsByte b = b < 256

-- The `n` bytes at which a little-endian host stores the `n`-byte integer `x`.
abbrev pub le : ℕ → ℕ → List ℕ
le zero x = []
le (suc n) x = x % 256 ∷ le n (x / 256)

abbrev pub from_le : List ℕ → ℕ
from_le [] = 0
from_le (b ∷ bs) = b + 256 * from_le bs

-- Reading an integer back from the bytes at which it was stored.
pub from_le-le : (n x : ℕ) → x < 256 ^ n → from_le (le n x) ≡ x
from_le-le zero x h = omega arith
from_le-le (suc n) x h =
    omega (arith, pow-suc 256 n, from_le-le n (x / 256) (omega (arith, pow-suc 256 n)))

pub le-from_le : (bs : List ℕ) → All IsByte bs → le (length bs) (from_le bs) ≡ bs
le-from_le [] h = refl
le-from_le (b ∷ bs) h =
    let low : (b + 256 * from_le bs) % 256 ≡ b = omega (arith, h.0) in
    let high : (b + 256 * from_le bs) / 256 ≡ from_le bs = omega (arith, h.0) in
    rw (low, high, le-from_le bs h.1)

pub length-le : (n x : ℕ) → length (le n x) ≡ n
length-le zero x = refl
length-le (suc n) x = ap suc (length-le n (x / 256))

pub All-IsByte-le : (n x : ℕ) → All IsByte (le n x)
All-IsByte-le zero x = tt
All-IsByte-le (suc n) x = (omega arith, All-IsByte-le n (x / 256))

-- htons and ntohs.
abbrev pub ntohs : ℕ → ℕ
ntohs x = x / 256 % 256 + 256 * (x % 256)

-- htonl and ntohl.
abbrev pub ntohl : ℕ → ℕ
ntohl x = from_le (reverse (le 4 x))

-- The operands of `|` share no bit, so that it is a sum.
unfoldable pub ntoh64 : ℕ → ℕ
ntoh64 x = ntohl (x / 2 ^ 32) + ntohl (x % 2 ^ 32) * 2 ^ 32

ntoh64_swap : (x : ℕ) → x < 2 ^ 64 → ntoh64 x ≡ from_le (reverse (le 8 x))
unfolding ntoh64
ntoh64_swap x h = omega arith

-- `hton64` stores the eight bytes of a number in the reverse order.
pub le-ntoh64 : (x : ℕ) → x < 2 ^ 64 → le 8 (ntoh64 x) ≡ reverse (le 8 x)
le-ntoh64 x h = rw (ntoh64_swap x h) (le-from_le (reverse (le 8 x)) (omega arith))

-- Reading a number back from its eight bytes, the highest first.
pub ntoh64-be : (x : ℕ) → x < 2 ^ 64 → ntoh64 (from_le (reverse (le 8 x))) ≡ x
ntoh64-be x h =
    let e : le 8 (from_le (reverse (le 8 x))) ≡ reverse (le 8 x) =
      le-from_le (reverse (le 8 x)) (omega arith) in
    ntoh64_swap (from_le (reverse (le 8 x))) (omega arith)
    ∙ ap (λ l. from_le (reverse l)) e
    ∙ from_le-le 8 x h
