-- ===== src/Ws/Recv.antt =====
-- The receive context of network/ws.h and network/ws.cpp: the messages that have come in, sorted by
-- id, and the message that is being read. The mutex is the caller's; each operation is one step.
pub mod Queue
pub mod Reading
pub mod Chunks
use zktls_bench.Prelude.{
  ℕ, ◌+◌, ◌-◌, Bool, true, false, not, ◌&&◌, Option, none, some, List, [], ◌∷◌, ltb, leb, ◌==◌,
  if◌then◌else◌, length, take, drop, min,
}
use zktls_bench.Prelude.Bytes.{from_le}
use zktls_bench.Errors.{Outcome, ok, err, fault, stuck, ◌>>=◌}
use zktls_bench.Ws.SendBuffer.{add64}

-- A node of `RecvList` with its `RecvBuffer`. `len` is the field `length`, which the peer sets;
-- `payload` is what stands in memory behind it.
pub record RecvBuffer : Type 0 where
  pub id : ℕ
  pub len : ℕ
  pub payload : List ℕ

-- `payload` points into the first node.
pub record RecvInfo : Type 0 where
  pub id : ℕ
  pub payload : List ℕ
  pub offset : ℕ
  pub len : ℕ
  pub prev_id : ℕ
  pub valid : Bool

pub record RecvCtx : Type 0 where
  pub list : List RecvBuffer
  pub info : Option RecvInfo
  pub recv_zero : Bool
  pub is_chunk : Bool

abbrev pub new_recv_ctx : RecvCtx
new_recv_ctx = record { list = []; info = none; recv_zero = false; is_chunk = false }

-- Into the list before the first node with a larger id.
unfoldable pub insert_chunk : RecvBuffer → List RecvBuffer → List RecvBuffer
insert_chunk c [] = c ∷ []
insert_chunk c (b ∷ bs) = if ltb c.id b.id then c ∷ b ∷ bs else b ∷ insert_chunk c bs

-- If no message is being read and the first node is the next one, it is taken up.
unfoldable pub start_next : RecvInfo → List RecvBuffer → RecvInfo
start_next info [] = info
start_next info (b ∷ bs) =
    if not info.valid && (add64 info.prev_id 1 == b.id)
    then record info { id = b.id; len = b.len; payload = b.payload; offset = 0; valid = true }
    else info

-- `new RecvInfo` leaves the other fields unspecified; nothing reads them before `valid` is set.
abbrev info_or_new : Option RecvInfo → RecvInfo
info_or_new none = record { id = 0; payload = []; offset = 0; len = 0; prev_id = 0; valid = false }
info_or_new (some info) = info

unfoldable pub put_to_recv_ctx : RecvCtx → RecvBuffer → RecvCtx
put_to_recv_ctx ctx chunk =
    let list = insert_chunk chunk ctx.list in
    if ctx.is_chunk
    then record ctx { list = list }
    else record ctx { list = list; info = some (start_next (info_or_new ctx.info) list) }

-- A message as the memory of a `RecvBuffer`. A message of less than 16 bytes is read behind its end.
unfoldable pub as_recv_buffer : List ℕ → Outcome RecvBuffer
as_recv_buffer bytes =
    if leb 16 (length bytes)
    then ok (record {
      id = from_le (take 8 bytes);
      len = from_le (take 8 (drop 8 bytes));
      payload = drop 16 bytes;
    })
    else fault

-- `PutToRecvCtx(ctx, buf, len)`
unfoldable pub put_bytes_to_recv_ctx : RecvCtx → List ℕ → Outcome RecvCtx
put_bytes_to_recv_ctx ctx buf = do chunk ← as_recv_buffer buf; ok (put_to_recv_ctx ctx chunk)

-- The sign of a 32-bit int, in 64 bits.
abbrev pub sign_extend : ℕ → ℕ
sign_extend x = if ltb x 0x8000_0000 then x else x + 0xffff_ffff_0000_0000

-- `PutToRecvCtx(ctx, id, buf, len)`; for the id -1 the id is the int at the front of the bytes.
unfoldable pub put_payload_to_recv_ctx : RecvCtx → ℕ → List ℕ → RecvCtx
put_payload_to_recv_ctx ctx id buf = put_to_recv_ctx ctx (record {
  id = if id == 0xffff_ffff_ffff_ffff then sign_extend (from_le (take 4 buf)) else id;
  len = length buf;
  payload = buf;
})

-- Whether a message is being read.
abbrev pub valid_info : Option RecvInfo → Bool
valid_info none = false
valid_info (some info) = info.valid

abbrev is_nil : List RecvBuffer → Bool
is_nil [] = true
is_nil (b ∷ bs) = false

abbrev nothing_to_read : Option RecvInfo → Bool
nothing_to_read none = true
nothing_to_read (some info) = not (info.valid && ltb info.offset info.len)

unfoldable pub empty_recv_ctx : RecvCtx → Bool
empty_recv_ctx ctx =
    if ctx.is_chunk
    then is_nil ctx.list
    else if is_nil ctx.list
    then true
    else nothing_to_read ctx.info

-- memcpy of `n` bytes from index `i` of a block.
unfoldable pub read_at : ℕ → ℕ → List ℕ → Outcome (List ℕ)
read_at i n block = if leb (i + n) (length block) then ok (take n (drop i block)) else fault

-- The first node is done with: its id is remembered, and it is freed.
unfoldable pub finish_node : RecvInfo → List RecvBuffer → Outcome (RecvInfo × List RecvBuffer)
finish_node info [] = fault
finish_node info (p ∷ rest) = ok (record info { prev_id = p.id; valid = false }, rest)

-- `RecvFromRecvCtx(ctx, buf, len)` with the info that the context points at: the bytes copied.
unfoldable pub read_info : RecvCtx → RecvInfo → ℕ → Outcome (List ℕ × RecvCtx)
read_info ctx info n =
    if ltb info.offset info.len
    then (let min_len = min (info.len - info.offset) n in
        let moved = record info { offset = info.offset + min_len } in
        do
          bytes ← read_at info.offset min_len info.payload
          (info', rest) ←
              if moved.offset == info.len then finish_node moved ctx.list else ok (moved, ctx.list)
          ok (bytes, record ctx { list = rest; info = some (start_next info' rest) }))
    else ok ([], record ctx { info = some (start_next info ctx.list) })

-- A context with no info is a null pointer.
unfoldable pub recv_from_recv_ctx : RecvCtx → ℕ → Outcome (List ℕ × RecvCtx)
recv_from_recv_ctx ctx n = elim ctx.info [ none ↦ fault | some info ↦ read_info ctx info n ]

-- The walk of `RecvFromRecvCtx(ctx, id)`: the node with the id, taken out of the list.
unfoldable pub take_chunk : ℕ → List RecvBuffer → Option RecvBuffer × List RecvBuffer
take_chunk id [] = (none, [])
take_chunk id (b ∷ bs) =
    let (found, rest) = take_chunk id bs in
    if b.id == id then (some b, bs) else if ltb id b.id then (none, b ∷ bs) else (found, b ∷ rest)

unfoldable pub recv_chunk_from_recv_ctx : RecvCtx → ℕ → Option RecvBuffer × RecvCtx
recv_chunk_from_recv_ctx ctx id =
    let (found, rest) = take_chunk id ctx.list in (found, record ctx { list = rest })
