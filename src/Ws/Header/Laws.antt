-- ===== src/Ws/Header/Laws.antt =====
-- The header writer against the header readers.
use mathlib.Core.List.{reverse}
use zktls_bench.Prelude.{
  ℕ, ◌+◌, ◌-◌, ◌^◌, ◌<◌, ◌≤◌, ◌≡◌, refl, Option, none, some, List, [], ◌∷◌, ◌++◌, ltb, leb, ◌==◌,
  if◌then◌else◌, replicate, arith, length, take, drop, take_append,
}
use zktls_bench.Prelude.Bytes.{le, from_le-le, le-ntoh64, ntoh64-be}
use native.Mathlib.Decide.{dec_lt}
use zktls_bench.Ws.Header.{
  gen_web_socket_header, web_socket_full_message_size, web_socket_message_payload_length,
  web_socket_message_masking_key, web_socket_message_data, web_socket_validate_message_size,
}

-- The bytes of the length: none below 126, else two or eight, the highest first.
unfoldable pub extended_length : ℕ → List ℕ
extended_length n =
    if ltb n 126 then [] else if leb n 65535 then reverse (le 2 n) else reverse (le 8 n)

unfoldable pub length_code : ℕ → ℕ
length_code n = if ltb n 126 then n else if leb n 65535 then 126 else 127

abbrev pub mask_bit : Option ℕ → ℕ
mask_bit none = 0
mask_bit (some m) = 128

abbrev pub key_bytes : Option ℕ → List ℕ
key_bytes none = []
key_bytes (some m) = le 4 m

-- The header as bytes.
unfoldable pub header_bytes : ℕ → Option ℕ → List ℕ
unfolding length_code extended_length
header_bytes n m = 130 ∷ (mask_bit m + length_code n) ∷ (extended_length n ++ key_bytes m)

-- What is left of the 14 bytes that a header may take.
abbrev pub slack : ℕ → Option ℕ → List ℕ
slack n m = replicate (14 - length (header_bytes n m)) 0

short_header :
    (n : ℕ) (m : Option ℕ) (rest : List ℕ)
    → n < 126
    → gen_web_socket_header (replicate 14 0 ++ rest) n m
      ≡ (header_bytes n m ++ (slack n m ++ rest), length (header_bytes n m))
unfolding gen_web_socket_header header_bytes
short_header n none rest h = ground arith
short_header n (some m) rest h = ground arith

medium_header :
    (n : ℕ) (m : Option ℕ) (rest : List ℕ)
    → 126 ≤ n
    → n ≤ 65535
    → gen_web_socket_header (replicate 14 0 ++ rest) n m
      ≡ (header_bytes n m ++ (slack n m ++ rest), length (header_bytes n m))
unfolding gen_web_socket_header header_bytes
medium_header n none rest h k = ground arith
medium_header n (some m) rest h k = ground arith

long_header :
    (n : ℕ) (m : Option ℕ) (rest : List ℕ)
    → 65535 < n
    → n < 2 ^ 64
    → gen_web_socket_header (replicate 14 0 ++ rest) n m
      ≡ (header_bytes n m ++ (slack n m ++ rest), length (header_bytes n m))
unfolding gen_web_socket_header header_bytes
long_header n none rest h k = ground (arith, le-ntoh64 n k)
long_header n (some m) rest h k = ground (arith, le-ntoh64 n k)

-- The writer lays the header down at the front of a zeroed buffer and leaves the rest of it alone.
pub gen_web_socket_header_lem :
    (n : ℕ) (m : Option ℕ) (rest : List ℕ)
    → n < 2 ^ 64
    → gen_web_socket_header (replicate 14 0 ++ rest) n m
      ≡ (header_bytes n m ++ (slack n m ++ rest), length (header_bytes n m))
gen_web_socket_header_lem n m rest h = elim (dec_lt n 126) [
  | yes short ↦ short_header n m rest short
  | no more ↦ elim (dec_lt 65535 n) [
    | yes long ↦ long_header n m rest long h
    | no medium ↦ medium_header n m rest (omega arith) (omega arith)
  ]
]

-- The masking key that a frame carries: zero stands for none.
abbrev pub key_of : Option ℕ → ℕ
key_of none = 0
key_of (some m) = m

abbrev pub IsKey : Option ℕ → Type 0
IsKey none = Unit {0}
IsKey (some m) = m < 2 ^ 32

-- What every reader of a header gives on a header of the given length and key.
pub record Reads (bytes : List ℕ) (n : ℕ) (m : Option ℕ) : Type 0 where
  pub payload_length : web_socket_message_payload_length bytes ≡ n
  pub masking_key : web_socket_message_masking_key bytes ≡ key_of m
  pub start : web_socket_message_data bytes ≡ length (header_bytes n m)

header_bytes-Reads :
    (n : ℕ) (m : Option ℕ) (rest : List ℕ)
    → n < 2 ^ 64
    → IsKey m
    → Reads (header_bytes n m ++ rest) n m
unfolding header_bytes web_socket_message_payload_length web_socket_message_masking_key
    web_socket_message_data
header_bytes-Reads n none rest h k = ground (arith, ntoh64-be n h)
header_bytes-Reads n (some m) rest h k = ground (arith, ntoh64-be n h, from_le-le 4 m k)

drop-slack :
    (n : ℕ) (m : Option ℕ) (buffer : List ℕ)
    → drop 14 (header_bytes n m ++ (slack n m ++ buffer)) ≡ buffer
unfolding header_bytes
drop-slack n none buffer = ground arith
drop-slack n (some m) buffer = ground arith

-- `GenWebSocketHeader` and the readers agree: from the front of the buffer that the writer leaves,
-- followed by any bytes, the readers take the length, the key and the place of the payload, and the
-- writer's count of header bytes is that place.
pub Reads-gen_web_socket_header :
    (n : ℕ) (m : Option ℕ) (buffer rest : List ℕ)
    → n < 2 ^ 64
    → IsKey m
    → let (bytes, header_len) = gen_web_socket_header (replicate 14 0 ++ buffer) n m in
      Reads (take header_len bytes ++ rest) n m
      × (web_socket_message_data (take header_len bytes ++ rest) ≡ header_len)
      × (drop 14 bytes ≡ buffer)
Reads-gen_web_socket_header n m buffer rest h k =
    rw
      (
        gen_web_socket_header_lem n m buffer h,
        take_append (length (header_bytes n m)) (header_bytes n m) (slack n m ++ buffer) refl,
      )
      (
        header_bytes-Reads n m rest h k,
        (header_bytes-Reads n m rest h k).start,
        drop-slack n m buffer,
      )

-- `WebSocketFullMessageSize` on a generated header gives header and payload together, and
-- `WebSocketValidateMessageSize` accepts exactly a message of that many bytes, if the size fits 64
-- bits and at least the two fixed bytes and, for a short frame, the whole header are at hand.
pub validate-header_bytes :
    (n : ℕ) (m : Option ℕ) (rest : List ℕ) (obtained : ℕ)
    → IsKey m
    → length (header_bytes n m) + n < 2 ^ 64
    → length (header_bytes n m) ≤ obtained
    → (web_socket_full_message_size (header_bytes n m ++ rest) obtained
        ≡ some (length (header_bytes n m) + n))
      × (web_socket_validate_message_size (header_bytes n m ++ rest) obtained
          ≡ some (length (header_bytes n m) + n == obtained))
unfolding header_bytes web_socket_validate_message_size
validate-header_bytes n none rest obtained k h o = ground (arith, ntoh64-be n)
validate-header_bytes n (some m) rest obtained k h o = ground (arith, ntoh64-be n)
