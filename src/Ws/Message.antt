-- ===== src/Ws/Message.antt =====
-- Receiving over a channel: `RecvMessageHeader` and both `RecvMessage` of network/ws.cpp, as built
-- without __EMSCRIPTEN__. malloc does not fail, and every error ends the call, so that no state is
-- kept beside it.
pub mod Header
pub mod Laws
pub mod Chunks
use zktls_bench.Prelude.{
  ℕ, zero, suc, ◌+◌, ◌-◌, ◌%◌, ◌^◌, Bool, true, false, not, Option, none, some, List, [], ◌∷◌, ◌++◌,
  ltb, leb, ◌==◌, if◌then◌else◌, length, take, drop,
}
use zktls_bench.Prelude.Bytes.{from_le, ntohs, ntoh64}
use zktls_bench.Errors.{Outcome, ok, err, fault, stuck, ◌>>=◌, connection_error}
use zktls_bench.Ws.Header.{header_of}
use zktls_bench.Ws.Mask.{un_mask_data}
use zktls_bench.Ws.Channel.{Channel}
use zktls_bench.Ws.Recv.{
  RecvBuffer, RecvCtx, put_to_recv_ctx, put_bytes_to_recv_ctx, sign_extend, recv_from_recv_ctx,
  recv_chunk_from_recv_ctx, valid_info,
}

-- What `RecvMessageHeader` passes back.
pub record Announced : Type 0 where
  pub data_len : ℕ
  pub is_masked : Bool
  pub mask_data : ℕ

-- The rest of the header, of the bytes of `headerData`.
unfoldable pub announced : List ℕ → Announced
unfolding header_of
announced header_data =
    let header = header_of header_data in
    let length_size =
      if header.payload_length == 126 then 2 else if header.payload_length == 127 then 8 else 0 in
    record {
      data_len =
          if header.payload_length == 126
          then ntohs (from_le (take 2 (drop 2 header_data)))
          else if header.payload_length == 127
          then ntoh64 (from_le (take 8 (drop 2 header_data)))
          else header.payload_length;
      is_masked = not (header.mask == 0);
      mask_data =
          if header.mask == 0 then 0 else from_le (take 4 (drop (2 + length_size) header_data));
    }

-- How many header bytes follow the first two.
unfoldable pub extra_size : List ℕ → ℕ
unfolding header_of
extra_size header_data =
    let header = header_of header_data in
    (if header.payload_length == 126 then 2 else if header.payload_length == 127 then 8 else 0)
    + (if header.mask == 0 then 0 else 4)

-- The comparison of two sizes as ints.
abbrev pub same_int : ℕ → ℕ → Bool
same_int m n = m % 2 ^ 32 == n % 2 ^ 32

-- sizeof(RecvList) and sizeof(RecvBuffer)
abbrev pub recv_list_size : ℕ
recv_list_size = 8

abbrev pub recv_buffer_size : ℕ
recv_buffer_size = 16

module _ (ch : Channel) where
  open ch use {State, connection_type, recv_ex}

  unfoldable pub recv_message_header : State → Outcome (Announced × State)
  recv_message_header s =
      let (front, s1) = recv_ex 2 s in
      if not (length front == 2)
      then err (connection_error connection_type "recv websocket header error")
      else if extra_size front == 0
      then ok (announced front, s1)
      else (let (more, s2) = recv_ex (extra_size front) s1 in
          if length more == extra_size front
          then ok (announced (front ++ more), s2)
          else err (connection_error connection_type "recv websocket header extra data error"))

  -- The payload behind a header, unmasked, in a block of `node` bytes and the payload. Where the sum
  -- of the two wraps, the block is smaller than the node, and is written behind its end.
  unfoldable pub recv_payload : ℕ → Announced → State → Outcome (List ℕ × State)
  recv_payload node h s =
      let (bytes, s') = recv_ex h.data_len s in
      let payload = if h.is_masked then un_mask_data bytes h.data_len h.mask_data else bytes in
      if not (ltb (node + h.data_len) (2 ^ 64))
      then fault
      else if same_int (length bytes) h.data_len
      then ok (payload, s')
      else err (connection_error connection_type "recv websocket payload error")

  unfoldable pub recv_frame : ℕ → State → Outcome (List ℕ × State)
  recv_frame node s = do (h, s') ← recv_message_header s; recv_payload node h s'

  -- What a message in progress has, with whether the read is complete.
  unfoldable pub recv_ready : RecvCtx → ℕ → List ℕ → Outcome (Bool × List ℕ × RecvCtx)
  recv_ready ctx len got =
      if valid_info ctx.info
      then (do
        (bytes, ctx') ← recv_from_recv_ctx ctx (len - length got)
        ok (length (got ++ bytes) == len, got ++ bytes, ctx'))
      else ok (false, got, ctx)

  -- `RecvMessage(ctx, buf, len, stream)`: the bytes written to `buf` so far are `got`. The fuel is
  -- the number of frames that may be read, and one.
  unfoldable pub recv_message :
      ℕ → RecvCtx → ℕ → List ℕ → State → Outcome (List ℕ × RecvCtx × State)
  recv_message zero ctx len got s = stuck
  recv_message (suc fuel) ctx len got s = do
    (done, got', ctx') ← recv_ready ctx len got
    elim done [
      | true ↦ ok (got', ctx', s)
      | false ↦ do
        (payload, s') ← recv_frame recv_list_size s
        ctx'' ← put_bytes_to_recv_ctx ctx' payload
        recv_message fuel ctx'' len got' s'
    ]

  abbrev pub found_or :
      Option RecvBuffer × RecvCtx
      → State
      → (RecvCtx → Outcome (RecvBuffer × RecvCtx × State))
      → Outcome (RecvBuffer × RecvCtx × State)
  found_or (some chunk, ctx) s next = ok (chunk, ctx, s)
  found_or (none, ctx) s next = next ctx

  -- The chunk of a payload, put in; its id is the int at the front.
  unfoldable pub put_chunk : RecvCtx → List ℕ → Outcome RecvCtx
  put_chunk ctx payload =
      if leb 4 (length payload)
      then ok (
          put_to_recv_ctx ctx (record {
            id = sign_extend (from_le (take 4 payload));
            len = length payload;
            payload = payload;
          }))
      else fault

  -- `RecvMessage(ctx, id, stream)`: the chunk with the id. A payload of less than four bytes is read
  -- behind its end.
  unfoldable pub recv_chunk : ℕ → RecvCtx → ℕ → State → Outcome (RecvBuffer × RecvCtx × State)
  recv_chunk zero ctx id s = stuck
  recv_chunk (suc fuel) ctx id s = found_or (recv_chunk_from_recv_ctx ctx id) s (λ ctx'. do
    (payload, s') ← recv_frame (recv_list_size + recv_buffer_size) s
    ctx'' ← put_chunk ctx' payload
    recv_chunk fuel ctx'' id s')
