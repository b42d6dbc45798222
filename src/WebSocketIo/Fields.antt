-- ===== src/WebSocketIo/Fields.antt =====
-- What the senders leave alone: the flags of the context, the queue of the flush thread when they send
-- themselves, and what the stream will deliver.
use zktls_bench.Prelude.{ℕ, ◌≡◌, List, [], arith}
use zktls_bench.Ws.SendBuffer.{pack, packet, reset}
use zktls_bench.Ws.Send.{
  SendCtx, send_message, send_rest, async_send_message, queue_buffer, queue_rest, tmp_packet,
}
use zktls_bench.WebSocketIo.{Duplex, Io, sender, hand_over, send_data_internal, flush}

pub queue_buffer-async : (ctx : SendCtx) → (queue_buffer ctx).async ≡ ctx.async
unfolding queue_buffer
queue_buffer-async ctx = ground arith

pub queue_rest-async :
    (ctx : SendCtx) (bytes : List ℕ) (now : ℕ) → (queue_rest ctx bytes now).1.async ≡ ctx.async
unfolding queue_rest
queue_rest-async ctx bytes now = ground arith

pub async_send_message-async :
    (ctx : SendCtx) (bytes : List ℕ) (now : ℕ)
    → (async_send_message ctx bytes now).1.async ≡ ctx.async
unfolding async_send_message
async_send_message-async ctx bytes now =
    ground (arith, queue_buffer-async ctx, queue_rest-async (queue_buffer ctx) bytes now)

module _ (d : Duplex) where
  open d use {State, pending, send_ex, send_ex-pending}

  -- What a send by the calling thread keeps.
  pub record Kept (ctx ctx' : SendCtx) (s s' : State) : Type 0 where
    pub same_async : ctx'.async ≡ ctx.async
    pub same_queue : ctx'.flush_ctx ≡ ctx.flush_ctx
    pub same_pending : pending s' ≡ pending s

  send_rest-Kept :
      (ctx : SendCtx) (bytes : List ℕ) (now : ℕ) (s : State)
      → Kept ctx (send_rest (sender d) ctx bytes now s).1 s (send_rest (sender d) ctx bytes now s).2
  unfolding send_rest
  send_rest-Kept ctx bytes now s =
      ground (arith, send_ex-pending (tmp_packet ctx.buffer bytes now).0 s)

  pub send_message-Kept :
      (ctx : SendCtx) (bytes : List ℕ) (now : ℕ) (s : State)
      → Kept ctx
          (send_message (sender d) ctx bytes now s).1
          s
          (send_message (sender d) ctx bytes now s).2
  unfolding send_message
  send_message-Kept ctx bytes now s =
      let packed : List ℕ = packet (pack ctx.buffer) in
      let cleared : SendCtx = record ctx { buffer = reset (pack ctx.buffer) } in
      ground (
        arith,
        send_ex-pending packed s,
        send_rest-Kept ctx bytes now s,
        send_rest-Kept cleared bytes now (send_ex packed s).1,
      )

  pub hand_over-async :
      (bytes : List ℕ) (now : ℕ) (io : Io d)
      → (hand_over d bytes now io).send_ctx.async ≡ io.send_ctx.async
  unfolding hand_over
  hand_over-async bytes now io = ground (
    arith,
    async_send_message-async io.send_ctx bytes now,
    send_message-Kept io.send_ctx bytes now io.channel_stream,
  )

  pub flush-async : (now : ℕ) (io : Io d) → (flush d now io).send_ctx.async ≡ io.send_ctx.async
  unfolding flush send_data_internal
  flush-async now io = ground (arith, hand_over-async [] now io)
