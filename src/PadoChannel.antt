-- ===== src/PadoChannel.antt =====
-- network/pado_io_channel.h: integers sent over a channel, the highest byte first.
use zktls_bench.Prelude.{
  ℕ, zero, suc, ◌+◌, ◌*◌, ◌/◌, ◌%◌, ◌^◌, ◌<◌, ◌≡◌, refl, List, [], ◌∷◌, length, arith,
}

-- The types that are sent, of one, four and eight bytes.
pub data Width : Type 0 where
  uint8 uint32 uint64 : Width

abbrev pub size_of : Width → ℕ
size_of uint8 = 1
size_of uint32 = 4
size_of uint64 = 8

-- The bytes `s >> ((N - 1 - i) << 3) & 0xff`, of which `n` are still to be stored.
abbrev pub send_bytes : ℕ → ℕ → List ℕ
send_bytes zero s = []
send_bytes (suc n) s = s / 2 ^ (8 * n) % 256 ∷ send_bytes n s

unfoldable pub send_size : Width → ℕ → List ℕ
send_size n s = send_bytes (size_of n) s

-- The operands of `|` share no bit, so that it is a sum; what leaves the type is cut off.
unfoldable pub recv_size : Width → List ℕ → ℕ
recv_size n [] = 0
recv_size n (c ∷ cs) = (c * 2 ^ (8 * length cs) + recv_size n cs) % 2 ^ (8 * size_of n)

-- What is sent is received, for every value of the type, and takes as many bytes as the type has.
pub recv_size-send_size :
    (n : Width) (s : ℕ)
    → s < 2 ^ (8 * size_of n)
    → (recv_size n (send_size n s) ≡ s) × (length (send_size n s) ≡ size_of n)
unfolding recv_size send_size
recv_size-send_size uint8 s h = (omega arith, refl)
recv_size-send_size uint32 s h = (omega arith, refl)
recv_size-send_size uint64 s h = (omega arith, refl)
