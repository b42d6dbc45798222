-- ===== src/Ws/SendBuffer/Laws.antt =====
-- The layout of a send buffer that holds a payload, how the operations keep it, and the frame that
-- `pack` makes of it.
use zktls_bench.Prelude.{
  ℕ, ◌+◌, ◌-◌, ◌^◌, ◌<◌, ◌≤◌, ◌≡◌, refl, ap, ◌∙◌, sym, ap₂, true, Bool-cases, ltb, if◌then◌else◌,
  inl, inr, Option, none, some, List, [], ◌++◌, length, take, drop, replicate, blit, blit_lem,
  length-append, length-replicate, replicate-add, append_assoc, arith, take_append, take_all,
  length-take, length-drop, take-append-drop,
}
use zktls_bench.Prelude.Bytes.{le}
use zktls_bench.Ws.Header.{gen_web_socket_header}
use zktls_bench.Ws.Header.Laws.{header_bytes, gen_web_socket_header_lem}
use zktls_bench.Ws.SendBuffer.{
  SendBuffer, buffer_of, size_for, copy_in, new_send_buffer, can_put, resize, put, packet, reset,
  pack, add64, set_send_id, set_length,
}

-- The buffer holds the payload: zeros up to it, and free memory behind it.
pub record Holds (b : SendBuffer) (payload : List ℕ) : Type 0 where
  pub free : List ℕ
  pub layout : b.buffer ≡ replicate 30 0 ++ (payload ++ free)
  pub end : b.offset ≡ 30 + length payload
  pub size : b.buffer_size ≡ 30 + (length payload + length free)

-- A message as it goes over the wire: the WebSocket header, the id, the length and the payload.
unfoldable pub message : ℕ → List ℕ → List ℕ
message id payload = le 8 id ++ (le 8 (length payload) ++ payload)

pub length-message : (id : ℕ) (payload : List ℕ) → length (message id payload) ≡ 16 + length payload
unfolding message
length-message id payload = omega arith

unfoldable pub frame : ℕ → List ℕ → List ℕ
frame id payload = header_bytes (16 + length payload) none ++ message id payload

buffer_of-Holds : (size id now : ℕ) → 30 ≤ size → Holds (buffer_of size id now) []
unfolding buffer_of
buffer_of-Holds size id now h = record {
  free = replicate (size - 30) 0;
  layout = ap (λ k. replicate {A = ℕ} k 0) (omega arith) ∙ replicate-add 30 (size - 30) 0;
  end = refl;
  size = omega (arith, length-replicate {A = ℕ} (size - 30) 0);
}

-- A new buffer holds nothing.
pub new-Holds :
    (n : ℕ) (prev : Option SendBuffer) (now : ℕ) → Holds (new_send_buffer n prev now).0 []
unfolding new_send_buffer
new-Holds n none now = buffer_of-Holds (size_for n) 0 now (ground arith)
new-Holds n (some other) now = buffer_of-Holds (size_for n) other.send_id now (ground arith)

length-buffer : {b : SendBuffer} {p : List ℕ} → Holds b p → length b.buffer ≡ b.buffer_size
length-buffer {b} {p} h = ap length h.layout ∙ omega (arith, length-append p h.free, h.size)

copy_in-Holds :
    {b : SendBuffer} {p : List ℕ} (xs : List ℕ) (h : Holds b p)
    → length xs ≤ length h.free
    → b.offset + length xs < 2 ^ 64
    → Holds (copy_in b xs) (p ++ xs)
unfolding copy_in
copy_in-Holds {b} {p} xs h fits small =
    let used : List ℕ = take (length xs) h.free in
    let left : List ℕ = drop (length xs) h.free in
    let front : List ℕ = replicate 30 0 ++ p in
    let used_len : length xs ≡ length used = omega (arith, length-take (length xs) h.free) in
    let here : b.offset ≡ length front = omega (arith, h.end) in
    record {
      free = left;
      layout =
          ap (blit b.offset xs) (
            h.layout
            ∙ ap (λ l. replicate 30 0 ++ (p ++ l)) (sym (take-append-drop (length xs) h.free)))
          ∙ blit_lem b.offset front xs used left here used_len
          ∙ ap (◌++◌ (replicate 30 0)) (sym (append_assoc p xs left));
      end = omega (arith, h.end, length-append p xs);
      size = omega (arith, h.size, length-append p xs, length-drop (length xs) h.free);
    }

resize-Holds :
    {b : SendBuffer} {p : List ℕ} (n : ℕ) → Holds b p → b.buffer_size ≤ n → Holds (resize b n) p
unfolding resize
resize-Holds {b} {p} n h more = record {
  free = h.free ++ replicate (n - length b.buffer) 0;
  layout =
      ap (λ l. l ++ replicate (n - length b.buffer) 0)
        (take_all n b.buffer (omega (arith, length-buffer h)) ∙ h.layout)
      ∙ append_assoc (replicate 30 0 ++ p) h.free (replicate (n - length b.buffer) 0);
  end = h.end;
  size = omega (
    arith,
    h.size,
    length-buffer h,
    length-append h.free (replicate (n - length b.buffer) 0),
    length-replicate {A = ℕ} (n - length b.buffer) 0,
  );
}

-- A put appends to the payload, whether the buffer has to grow or not.
pub put-Holds :
    {b : SendBuffer} {p : List ℕ} (xs : List ℕ)
    → Holds b p
    → b.buffer_size + length xs < 2 ^ 64
    → Holds (put b xs) (p ++ xs)
unfolding put
put-Holds {b} {p} xs h small =
    let size : ℕ =
      b.buffer_size + (if ltb (length xs) b.buffer_size then b.buffer_size else length xs) in
    let bigger : Holds (resize b size) p = resize-Holds size h (omega arith) in
    elim (Bool-cases (can_put b (length xs))) [
      | inl fits ↦
          rw (fits, put)
            (copy_in-Holds xs h (ground (arith, h.end, h.size)) (omega (arith, h.end, h.size)))
      | inr full ↦
          rw (full, put)
            (copy_in-Holds xs bigger (ground (arith, h.end, h.size, bigger.size))
              (omega (arith, h.end, h.size)))
    ]

-- A put that fits leaves the id and the size alone.
pub put_fields :
    (b : SendBuffer) (xs : List ℕ)
    → can_put b (length xs) ≡ true
    → ((put b xs).send_id ≡ b.send_id) × ((put b xs).buffer_size ≡ b.buffer_size)
unfolding put
put_fields b xs fits = rw (fits, put) (refl, refl)

pub send_id-put : (b : SendBuffer) (xs : List ℕ) → (put b xs).send_id ≡ b.send_id
unfolding put
send_id-put b xs = ground arith

-- A buffer that is made from another takes its id over, and has room for its payload only.
pub new_fields :
    (n : ℕ) (other : SendBuffer) (now : ℕ)
    → ((new_send_buffer n (some other) now).0.send_id ≡ other.send_id)
      × ((new_send_buffer n (some other) now).0.buffer_size ≤ 1048576 + n)
      × ((new_send_buffer n (some other) now).1
          ≡ some (record other { send_id = add64 other.send_id 1 }))
unfolding new_send_buffer
new_fields n other now = (refl, ground arith, refl)

-- What the header writer and the move that follows it leave of a block.
moved : List ℕ → ℕ → List ℕ
moved buf n =
    let (bytes, header_len) = gen_web_socket_header buf n none in
    blit (14 - header_len) (take header_len bytes) bytes

header_end : List ℕ → ℕ → ℕ
header_end buf n = (gen_web_socket_header buf n none).1

-- The header comes to stand right before the id.
record IsMoved (n : ℕ) (rest : List ℕ) : Type 0 where
  from_header :
      drop (14 - header_end (replicate 14 0 ++ rest) n) (moved (replicate 14 0 ++ rest) n)
      ≡ header_bytes n none ++ rest
  from_id : drop 14 (moved (replicate 14 0 ++ rest) n) ≡ rest
  header_len : header_end (replicate 14 0 ++ rest) n ≡ length (header_bytes n none)
  fits : header_end (replicate 14 0 ++ rest) n ≤ 14
  front : length (take 14 (moved (replicate 14 0 ++ rest) n)) ≡ 14

move_header : (n : ℕ) (rest : List ℕ) → n < 2 ^ 64 → IsMoved n rest
unfolding header_bytes moved header_end
move_header n rest h = ground (arith, gen_web_socket_header_lem n none rest h)

module _ {b : SendBuffer} {p : List ℕ} (h : Holds b p) (small : length p < 2 ^ 63) where
  -- the block with the id and the length in place, before the header
  body : List ℕ
  body = message (add64 b.send_id 1) p ++ h.free

  ids_in_place : (set_length (set_send_id b)).buffer ≡ replicate 14 0 ++ body
  unfolding set_length set_send_id body message
  ids_in_place =
      let n : b.offset - 16 - 14 ≡ length p = omega (arith, h.end) in
      ap (λ l. blit 22 (le 8 (b.offset - 16 - 14)) (blit 14 (le 8 (add64 b.send_id 1)) l)) h.layout
      ∙ ap
          (λ k.
            blit 22 (le 8 k) (blit 14 (le 8 (add64 b.send_id 1)) (replicate 30 0 ++ (p ++ h.free))))
          n

  packed_block :
      ((pack b).buffer ≡ moved (replicate 14 0 ++ body) (16 + length p))
      × ((pack b).packed_offset ≡ 14 - header_end (replicate 14 0 ++ body) (16 + length p))
  unfolding pack moved header_end
  packed_block =
      let n : 16 + (b.offset - 16 - 14) ≡ 16 + length p = omega (arith, h.end) in
      (ap₂ moved ids_in_place n, ap₂ (λ buf k. 14 - header_end buf k) ids_in_place n)

  pub pack_fields :
      ((pack b).send_id ≡ add64 b.send_id 1)
      × ((pack b).offset ≡ b.offset)
      × ((pack b).buffer_size ≡ b.buffer_size)
  unfolding pack
  pack_fields = (refl, refl, refl)

  -- The frame that `pack` leaves for the stream carries the next id and exactly the payload.
  pub packet-pack : packet (pack b) ≡ frame (add64 b.send_id 1) p
  unfolding packet frame body
  packet-pack =
      let id : ℕ = add64 b.send_id 1 in
      let n : ℕ = 16 + length p in
      let m : IsMoved n body = move_header n body (omega arith) in
      let count : ℕ = (pack b).offset - (pack b).packed_offset in
      let all : List ℕ = header_bytes n none ++ message id p in
      let exact : count ≡ length all = omega (
        arith,
        pack_fields,
        packed_block,
        m.header_len,
        m.fits,
        h.end,
        length-append (header_bytes n none) (message id p),
        length-message id p,
      ) in
      ap (take count) (
        ap₂ drop packed_block.1 packed_block.0
        ∙ m.from_header
        ∙ sym (append_assoc (header_bytes n none) (message id p) h.free))
      ∙ take_append count all h.free exact

  -- After `reset` the buffer holds nothing, whatever was packed.
  pub reset-pack-Holds : Holds (reset (pack b)) []
  unfolding reset body message
  reset-pack-Holds =
      let id : ℕ = add64 b.send_id 1 in
      let n : ℕ = 16 + length p in
      let m : IsMoved n body = move_header n body (omega arith) in
      let block : List ℕ = moved (replicate 14 0 ++ body) n in
      let front : List ℕ = take 14 block ++ (le 8 id ++ le 8 (length p)) in
      record {
        free = p ++ h.free;
        layout =
            ap (blit 0 (replicate 30 0)) (
              packed_block.0
              ∙ sym (take-append-drop 14 block)
              ∙ ap (λ l. take 14 block ++ l) m.from_id
              ∙ sym (append_assoc (take 14 block) (le 8 id ++ le 8 (length p)) (p ++ h.free)))
            ∙ blit_lem 0 [] (replicate 30 0) front (p ++ h.free) refl (
                omega (arith, length-append (take 14 block) (le 8 id ++ le 8 (length p)), m.front));
        end = refl;
        size = omega (arith, pack_fields, h.size, length-append p h.free);
      }
