-- ===== src/Ws/Mask.antt =====
-- The two maskers of network/ws.cpp, `UnMaskData` and `WebSocketMessageUnmaskPayload`. Both take
-- the payload four bytes at a time as words of a little-endian host, and the last bytes singly.
pub mod Laws
use Prim.Native.Nat.{bit_xor, bit_and}
use zktls_bench.Prelude.{ℕ, zero, suc, ◌+◌, ◌-◌, ◌/◌, ◌%◌, List, [], ◌∷◌, ◌++◌, get_or}
use zktls_bench.Prelude.Bytes.{le, from_le}

-- `*word++ ^= mask` for `n` words, and `rest` on what follows them.
unfoldable pub xor_words : ℕ → ℕ → (List ℕ → List ℕ) → List ℕ → List ℕ
xor_words zero mask rest bytes = rest bytes
xor_words (suc n) mask rest (a ∷ b ∷ c ∷ d ∷ bytes) =
    le 4 (bit_xor (from_le (a ∷ b ∷ c ∷ d ∷ [])) mask) ++ xor_words n mask rest bytes
xor_words (suc n) mask rest bytes = bytes

-- `*byte++ ^= *mask8++` for `n` bytes.
unfoldable pub xor_bytes : ℕ → List ℕ → List ℕ → List ℕ
xor_bytes zero mask8 bytes = bytes
xor_bytes (suc n) (k ∷ mask8) (x ∷ bytes) = bit_xor x k ∷ xor_bytes n mask8 bytes
xor_bytes (suc n) mask8 bytes = bytes

unfoldable pub un_mask_data : List ℕ → ℕ → ℕ → List ℕ
unfolding xor_words xor_bytes
un_mask_data buf len mask = xor_words (len / 4) mask (xor_bytes (len % 4) (le 4 mask)) buf

-- `*data ^= maskingKey8[(data - payload) % 4]` for `n` bytes, the first of them byte `i`.
unfoldable pub xor_bytes_from : ℕ → ℕ → List ℕ → List ℕ → List ℕ
xor_bytes_from zero i masking_key8 bytes = bytes
xor_bytes_from (suc n) i masking_key8 [] = []
xor_bytes_from (suc n) i masking_key8 (x ∷ bytes) =
    bit_xor x (get_or masking_key8 (i % 4) 0) ∷ xor_bytes_from n (i + 1) masking_key8 bytes

-- `~3u` is a 32-bit number, so that the words end before byte 2^32.
unfoldable pub web_socket_message_unmask_payload : List ℕ → ℕ → ℕ → List ℕ
unfolding xor_words xor_bytes_from
web_socket_message_unmask_payload payload payload_length masking_key =
    let end_u32 = bit_and payload_length 0xffff_fffc in
    xor_words (end_u32 / 4) masking_key
      (xor_bytes_from (payload_length - end_u32) end_u32 (le 4 masking_key)) payload
