-- ===== src/Ws/Header.antt =====
-- The WebSocket frame header of network/ws.h and network/ws.cpp: the packed bit fields, the writer
-- `GenWebSocketHeader`, and the readers of a received header. A buffer is its list of bytes, a
-- pointer into it an index.
pub mod Laws
use Prim.Native.String.{String}
use zktls_bench.Prelude.{
  ℕ, zero, suc, ◌+◌, ◌*◌, ◌/◌, ◌%◌, ◌^◌, Bool, true, false, not, Option, none, some, List, [], ◌∷◌,
  ltb, leb, ◌==◌, if◌then◌else◌, get_or, set, blit, take, drop,
}
use zktls_bench.Prelude.Bytes.{le, from_le, ntohs, ntoh64}

pub record WebSocketMessageHeader : Type 0 where
  pub opcode : ℕ
  pub rsv : ℕ
  pub fin : ℕ
  pub payload_length : ℕ
  pub mask : ℕ

-- The fields from the lowest bit of a byte up, as GCC lays them out.
unfoldable pub header_of : List ℕ → WebSocketMessageHeader
header_of bytes = record {
  opcode = get_or bytes 0 0 % 16;
  rsv = get_or bytes 0 0 / 16 % 8;
  fin = get_or bytes 0 0 / 128 % 2;
  payload_length = get_or bytes 1 0 % 128;
  mask = get_or bytes 1 0 / 128 % 2;
}

abbrev set_opcode : ℕ → List ℕ → List ℕ
set_opcode v bytes = set bytes 0 (get_or bytes 0 0 / 16 * 16 + v % 16)

abbrev set_fin : ℕ → List ℕ → List ℕ
set_fin v bytes = set bytes 0 (get_or bytes 0 0 % 128 + v % 2 * 128)

abbrev set_payload_length : ℕ → List ℕ → List ℕ
set_payload_length v bytes = set bytes 1 (get_or bytes 1 0 / 128 * 128 + v % 128)

abbrev set_mask : ℕ → List ℕ → List ℕ
set_mask v bytes = set bytes 1 (get_or bytes 1 0 % 128 + v % 2 * 128)

-- The length field and the extended length, with the number of header bytes so far.
unfoldable pub length_fields : List ℕ → ℕ → List ℕ × ℕ
length_fields bytes num_bytes =
    if ltb num_bytes 126
    then (set_payload_length num_bytes bytes, 2)
    else if leb num_bytes 65535
    then (blit 2 (le 2 (ntohs num_bytes)) (set_payload_length 126 bytes), 4)
    else (blit 2 (le 8 (ntoh64 num_bytes)) (set_payload_length 127 bytes), 10)

unfoldable pub mask_fields : List ℕ × ℕ → Option ℕ → List ℕ × ℕ
mask_fields (bytes, header_bytes) none = (bytes, header_bytes)
mask_fields (bytes, header_bytes) (some mask_data) =
    (blit header_bytes (le 4 mask_data) (set_mask 1 bytes), header_bytes + 4)

-- The header of a final binary frame of `num_bytes` bytes, written over the front of a buffer: the
-- buffer and the number of header bytes. The mask is `none` for a null pointer.
unfoldable pub gen_web_socket_header : List ℕ → ℕ → Option ℕ → List ℕ × ℕ
unfolding length_fields mask_fields
gen_web_socket_header bytes num_bytes mask_data =
    mask_fields (length_fields (set_fin 1 (set_opcode 2 bytes)) num_bytes) mask_data

mask_bytes : WebSocketMessageHeader → ℕ
mask_bytes header = if header.mask == 0 then 0 else 4

-- For an extended length the test is on the sum, which is never zero, and not on the bytes at hand.
unfoldable pub web_socket_has_full_header : List ℕ → ℕ → Bool
unfolding header_of mask_bytes
web_socket_has_full_header bytes obtained =
    let header = header_of bytes in
    let expected = 2 + mask_bytes header in
    if ltb obtained 2
    then false
    else if header.payload_length == 127
    then not (expected + 8 == 0)
    else if header.payload_length == 126
    then not (expected + 2 == 0)
    else leb expected obtained

-- The total size of a message; `none` is the failed assert. The sum is a uint64_t.
unfoldable pub web_socket_full_message_size : List ℕ → ℕ → Option ℕ
unfolding header_of mask_bytes web_socket_has_full_header
web_socket_full_message_size bytes obtained =
    let header = header_of bytes in
    let expected = 2 + mask_bytes header in
    if web_socket_has_full_header bytes obtained
    then if header.payload_length == 127
      then some ((expected + (8 + ntoh64 (from_le (take 8 (drop 2 bytes))))) % 2 ^ 64)
      else if header.payload_length == 126
      then some (expected + (2 + ntohs (from_le (take 2 (drop 2 bytes)))))
      else some (expected + header.payload_length)
    else none

-- The comparison of the size that the header gives with the bytes at hand; it also prints them.
unfoldable pub web_socket_validate_message_size : List ℕ → ℕ → Option Bool
unfolding web_socket_full_message_size
web_socket_validate_message_size bytes obtained =
    elim (web_socket_full_message_size bytes obtained) [
      | none ↦ none
      | some expected ↦ some (expected == obtained)
    ]

unfoldable pub web_socket_message_payload_length : List ℕ → ℕ
unfolding header_of
web_socket_message_payload_length bytes =
    let header = header_of bytes in
    if header.payload_length == 127
    then ntoh64 (from_le (take 8 (drop 2 bytes)))
    else if header.payload_length == 126
    then ntohs (from_le (take 2 (drop 2 bytes)))
    else header.payload_length

unfoldable pub web_socket_message_masking_key : List ℕ → ℕ
unfolding header_of
web_socket_message_masking_key bytes =
    let header = header_of bytes in
    if header.mask == 0
    then 0
    else if header.payload_length == 127
    then from_le (take 4 (drop 10 bytes))
    else if header.payload_length == 126
    then from_le (take 4 (drop 4 bytes))
    else from_le (take 4 (drop 2 bytes))

-- Where the payload begins.
unfoldable pub web_socket_message_data : List ℕ → ℕ
unfolding header_of mask_bytes
web_socket_message_data bytes =
    let header = header_of bytes in
    let start = 2 + mask_bytes header in
    if header.payload_length == 127
    then start + 8
    else if header.payload_length == 126
    then start + 2
    else start

-- The opcode is four bits wide; the array has no entry beyond.
unfoldable pub web_socket_opcode_to_string : ℕ → Option String
web_socket_opcode_to_string opcode =
    if opcode == 0
    then some "continuation frame (0x0)"
    else if opcode == 1
    then some "text frame (0x1)"
    else if opcode == 2
    then some "binary frame (0x2)"
    else if opcode == 3
    then some "reserved(0x3)"
    else if opcode == 4
    then some "reserved(0x4)"
    else if opcode == 5
    then some "reserved(0x5)"
    else if opcode == 6
    then some "reserved(0x6)"
    else if opcode == 7
    then some "reserved(0x7)"
    else if opcode == 8
    then some "connection close (0x8)"
    else if opcode == 9
    then some "ping (0x9)"
    else if opcode == 10
    then some "pong (0xA)"
    else if opcode == 11
    then some "reserved(0xB)"
    else if opcode == 12
    then some "reserved(0xC)"
    else if opcode == 13
    then some "reserved(0xD)"
    else if opcode == 14
    then some "reserved(0xE)"
    else if opcode == 15
    then some "reserved(0xF)"
    else none
