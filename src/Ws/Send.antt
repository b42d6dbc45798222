-- ===== src/Ws/Send.antt =====
-- The sending side of network/ws.cpp: `SendCtx`, `SendMessage`, `AsyncSendMessage` and
-- `AsyncFlushMessage`, over a stream that takes packets.
pub mod Progress
pub mod Laws
use zktls_bench.Prelude.{
  ℕ, ◌<◌, Bool, true, false, not, ◌&&◌, Option, none, some, List, [], ◌∷◌, ◌++◌, ◌≡◌, ltb, ◌==◌,
  if◌then◌else◌, length,
}
use zktls_bench.Ws.SendBuffer.{
  SendBuffer, new_send_buffer, can_put, put, empty, packet, pack, reset,
}
use zktls_bench.Ws.FlushCtx.{
  FlushCtx, new_flush_ctx, put_to_flush_ctx, get_from_flush_ctx, empty_flush_ctx,
}

-- What the senders use of a `ChannelStream`. `send_ex` says whether the call did not report an
-- error; a packet that was taken stands last among those sent.
pub record SendStream : Type 1 where
  pub State : Type 0
  pub send_ex : List ℕ → State → Bool × State
  pub flush : State → State
  pub sent : State → List (List ℕ)
  pub send_ex-sent :
      (p : List ℕ) (s : State) → (send_ex p s).0 ≡ true → sent (send_ex p s).1 ≡ sent s ++ (p ∷ [])

pub record SendCtx : Type 0 where
  pub buffer : SendBuffer
  pub flush_ctx : FlushCtx
  pub async : Bool

-- `now` is time(NULL).
unfoldable pub new_send_ctx : ℕ → SendCtx
new_send_ctx now = record {
  buffer = (new_send_buffer 32768 none now).0;
  flush_ctx = new_flush_ctx;
  async = false;
}

-- `SendBuffer tmp(len, send_buffer); tmp.put(buf, len); tmp.pack();` with the other buffer, whose
-- id the constructor counts up.
unfoldable pub tmp_packet : SendBuffer → List ℕ → ℕ → List ℕ × SendBuffer
tmp_packet send_buffer buf now =
    let (tmp, counted) = new_send_buffer (length buf) (some send_buffer) now in
    (packet (pack (put tmp buf)), elim counted [ none ↦ send_buffer | some other ↦ other ])

module _ (stream : SendStream) where
  open stream use {State, send_ex, flush}

  -- The part of `SendMessage` behind the flush; `none` is -1.
  unfoldable pub send_rest : SendCtx → List ℕ → ℕ → State → Option ℕ × SendCtx × State
  send_rest ctx buf now s =
      let len = length buf in
      if ltb 0 len && can_put ctx.buffer len
      then (some len, record ctx { buffer = put ctx.buffer buf }, s)
      else if ltb 0 len
      then (let (tmp, counted) = tmp_packet ctx.buffer buf now in
          let (done, s') = send_ex tmp s in
          if done
          then (some len, record ctx { buffer = counted }, s')
          else (none, record ctx { buffer = counted }, s'))
      else (some len, ctx, s)

  unfoldable pub send_message : SendCtx → List ℕ → ℕ → State → Option ℕ × SendCtx × State
  send_message ctx buf now s =
      let len = length buf in
      if ltb 0 len && can_put ctx.buffer len
      then (some len, record ctx { buffer = put ctx.buffer buf }, s)
      else if not (empty ctx.buffer)
      then (let packed = pack ctx.buffer in
          let (done, s') = send_ex (packet packed) s in
          if done
          then send_rest (record ctx { buffer = reset packed }) buf now s'
          else (none, record ctx { buffer = packed }, s'))
      else send_rest ctx buf now s

  -- One round of the flush thread, with the outcome of its wait: it is left when the context is no
  -- longer asynchronous or a packet is there.
  unfoldable pub async_flush_message : SendCtx → State → SendCtx × State
  async_flush_message ctx s =
      let (first, rest) = get_from_flush_ctx ctx.flush_ctx in
      elim first [
        | none ↦ (ctx, s)
        | some p ↦
            let (done, s') = send_ex p s in
            (record ctx { flush_ctx = rest }, if done then flush s' else s')
      ]

-- The send buffer packed into the flush queue and cleared, if it holds anything.
unfoldable pub queue_buffer : SendCtx → SendCtx
queue_buffer ctx =
    if not (empty ctx.buffer)
    then record ctx {
      buffer = reset (pack ctx.buffer);
      flush_ctx = put_to_flush_ctx ctx.flush_ctx (packet (pack ctx.buffer));
    }
    else ctx

unfoldable pub queue_rest : SendCtx → List ℕ → ℕ → ℕ × SendCtx
queue_rest ctx buf now =
    let len = length buf in
    if ltb 0 len && can_put ctx.buffer len
    then (len, record ctx { buffer = put ctx.buffer buf })
    else if ltb 0 len
    then (let (tmp, counted) = tmp_packet ctx.buffer buf now in
        (len, record ctx { buffer = counted; flush_ctx = put_to_flush_ctx ctx.flush_ctx tmp }))
    else (len, ctx)

unfoldable pub async_send_message : SendCtx → List ℕ → ℕ → ℕ × SendCtx
async_send_message ctx buf now =
    let len = length buf in
    if len == 0
    then (len, queue_buffer ctx)
    else if ltb 0 len && can_put ctx.buffer len
    then (len, record ctx { buffer = put ctx.buffer buf })
    else queue_rest (queue_buffer ctx) buf now
