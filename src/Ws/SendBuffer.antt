-- ===== src/Ws/SendBuffer.antt =====
-- `SendBuffer` of network/ws.h, in the native build: a block of memory with room for a WebSocket
-- header (14 bytes), the message's id and length (8 bytes each) and the payload. Masking is off
-- (`ENABLE_MASK` is 0).
pub mod Laws
use zktls_bench.Prelude.{
  ℕ, ◌+◌, ◌-◌, ◌*◌, ◌%◌, ◌^◌, Bool, Option, none, some, List, ◌++◌, ltb, leb, if◌then◌else◌, ◌==◌,
  length, take, drop, replicate, blit,
}
use zktls_bench.Prelude.Bytes.{le}
use zktls_bench.Ws.Header.{gen_web_socket_header}

-- sizeof(WebSocketMessageHeader) + 8 + 4
abbrev pub extra_header_size : ℕ
extra_header_size = 14

-- Where the payload starts.
abbrev pub payload_start : ℕ
payload_start = 30

-- SEND_BUFFER_SIZE
abbrev pub default_buffer_size : ℕ
default_buffer_size = 1048576

pub record SendBuffer : Type 0 where
  pub buffer : List ℕ
  pub offset : ℕ
  pub send_id : ℕ
  pub buffer_size : ℕ
  pub packed_offset : ℕ
  pub mask_data : ℕ

-- uint64_t addition
abbrev pub add64 : ℕ → ℕ → ℕ
add64 a b = (a + b) % 2 ^ 64

buffer_of : ℕ → ℕ → ℕ → SendBuffer
buffer_of buffer_size id now = record {
  buffer = replicate buffer_size 0;
  offset = payload_start;
  send_id = id;
  buffer_size = buffer_size;
  packed_offset = 0;
  mask_data = now;
}

size_for : ℕ → ℕ
size_for payload_size =
    if payload_size == 0 then default_buffer_size else payload_start + payload_size

-- The constructor takes over the id of another buffer and counts that one up; `now` is time(NULL).
-- It returns the other buffer too.
unfoldable pub new_send_buffer : ℕ → Option SendBuffer → ℕ → SendBuffer × Option SendBuffer
unfolding buffer_of size_for
new_send_buffer payload_size none now = (buffer_of (size_for payload_size) 0 now, none)
new_send_buffer payload_size (some other) now = (
  buffer_of (size_for payload_size) other.send_id now,
  some (record other { send_id = add64 other.send_id 1 }),
)

unfoldable pub can_put : SendBuffer → ℕ → Bool
can_put b num_bytes = ltb (add64 b.offset num_bytes) b.buffer_size

-- realloc keeps what fits. The bytes that it adds are unspecified; nothing reads them before `put`
-- has written them, and they are 0 here.
unfoldable pub resize : SendBuffer → ℕ → SendBuffer
resize b len = record b {
  buffer = take len b.buffer ++ replicate (len - length b.buffer) 0;
  buffer_size = len;
}

copy_in : SendBuffer → List ℕ → SendBuffer
copy_in b buf = record b {
  buffer = blit b.offset buf b.buffer;
  offset = add64 b.offset (length buf);
}

unfoldable pub put : SendBuffer → List ℕ → SendBuffer
unfolding can_put resize copy_in
put b buf =
    let len = length buf in
    if can_put b len
    then copy_in b buf
    else copy_in (resize b (b.buffer_size + (if ltb len b.buffer_size then b.buffer_size else len)))
        buf

unfoldable pub empty : SendBuffer → Bool
empty b = leb b.offset payload_start

-- What `data()` and `size()` give to the stream.
unfoldable pub packet : SendBuffer → List ℕ
packet b = take (b.offset - b.packed_offset) (drop b.packed_offset b.buffer)

-- The front is cleared; `packed_offset` stays.
unfoldable pub reset : SendBuffer → SendBuffer
reset b = record b { offset = payload_start; buffer = blit 0 (replicate 30 0) b.buffer }

unfoldable pub set_send_id : SendBuffer → SendBuffer
set_send_id b = record b {
  send_id = add64 b.send_id 1;
  buffer = blit extra_header_size (le 8 (add64 b.send_id 1)) b.buffer;
}

get_payload_length : SendBuffer → ℕ
get_payload_length b = b.offset - 16 - extra_header_size

unfoldable pub set_length : SendBuffer → SendBuffer
unfolding get_payload_length
set_length b = record b {
  buffer = blit (extra_header_size + 8) (le 8 (get_payload_length b)) b.buffer;
}

-- The header is written at the front of the buffer and moved up against the id.
unfoldable pub set_extra_header : SendBuffer → SendBuffer
unfolding get_payload_length
set_extra_header b =
    let (bytes, header_bytes) = gen_web_socket_header b.buffer (16 + get_payload_length b) none in
    record b {
      packed_offset = extra_header_size - header_bytes;
      buffer = blit (extra_header_size - header_bytes) (take header_bytes bytes) bytes;
    }

unfoldable pub pack : SendBuffer → SendBuffer
unfolding set_send_id set_length set_extra_header
pack b = set_extra_header (set_length (set_send_id b))
