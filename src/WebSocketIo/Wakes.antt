-- ===== src/WebSocketIo/Wakes.antt =====
-- No wake-up of the flush thread is lost: it is asleep only while no packet is queued.
use zktls_bench.Prelude.{
  ltb, ℕ, ◌<◌, ◌≡◌, refl, sym, subst, ◌∙◌, Bool, true, false, List, [], ◌∷◌, length, arith,
  Bool-cases, inl, inr, if_true, if_false,
}
use zktls_bench.Errors.{ok, ok-injective}
use zktls_bench.Ws.SendBuffer.{SendBuffer}
use zktls_bench.Ws.FlushCtx.{new_flush_ctx, FlushCtx, put_to_flush_ctx, get_from_flush_ctx}
use zktls_bench.Ws.Send.{SendCtx, new_send_ctx, async_send_message, queue_buffer, queue_rest}
use zktls_bench.WebSocketIo.{
  Duplex, Io, FlushThread, not_started, waiting, sending, new_io, hand_over, send_data_internal,
  flush, flush_sent, start_async_flush, take_packet, take_by, send_packet, send_by,
  stop_async_flush,
}
use zktls_bench.WebSocketIo.Fields.{send_message-Kept}
use zktls_bench.WebSocketIo.Steps.{Carries, in_flight, right_nil}
use zktls_bench.WebSocketIo.Reads.{recv_data_internal-ReadFrom}
use zktls_bench.WebSocketIo.Stop.{stop_async_flush-Delivered, stop_still}
use zktls_bench.WebSocketIo.Reachable.{
  Step, send_data, flush_data, recv_data, thread_starts, thread_takes, thread_sends, thread_stops,
  Reach, here, next, Reach-Carries,
}

-- The thread is asleep only if nothing is queued.
abbrev pub IsAwake : FlushCtx → Type 0
IsAwake ctx = ctx.asleep ≡ true → ctx.list ≡ []

put_to_flush_ctx-IsAwake : (ctx : FlushCtx) (p : List ℕ) → IsAwake (put_to_flush_ctx ctx p)
unfolding put_to_flush_ctx
put_to_flush_ctx-IsAwake ctx p h = absurd (cc h)

queue_buffer-IsAwake :
    (ctx : SendCtx) → IsAwake ctx.flush_ctx → IsAwake (queue_buffer ctx).flush_ctx
unfolding queue_buffer put_to_flush_ctx
queue_buffer-IsAwake ctx k h = ground arith

queue_rest-IsAwake :
    (ctx : SendCtx) (bytes : List ℕ) (now : ℕ)
    → IsAwake ctx.flush_ctx
    → IsAwake (queue_rest ctx bytes now).1.flush_ctx
unfolding queue_rest put_to_flush_ctx
queue_rest-IsAwake ctx bytes now k h = ground arith

async_send_message-IsAwake :
    (ctx : SendCtx) (bytes : List ℕ) (now : ℕ)
    → IsAwake ctx.flush_ctx
    → IsAwake (async_send_message ctx bytes now).1.flush_ctx
unfolding async_send_message
async_send_message-IsAwake ctx bytes now k h = ground (
  arith,
  queue_buffer-IsAwake ctx k,
  queue_rest-IsAwake ctx bytes now k,
  queue_rest-IsAwake (queue_buffer ctx) bytes now (queue_buffer-IsAwake ctx k),
)

module _ (d : Duplex) where
  open d use {State}

  abbrev pub Awake : Io d → Type 0
  Awake io = IsAwake io.send_ctx.flush_ctx

  hand_over-Awake :
      (bytes : List ℕ) (now : ℕ) (io : Io d) → Awake io → Awake (hand_over d bytes now io)
  unfolding hand_over
  hand_over-Awake bytes now io k = elim (Bool-cases io.send_ctx.async) [
    | inl async ↦
        subst Awake (sym (if_true _ async)) (async_send_message-IsAwake io.send_ctx bytes now k)
    | inr direct ↦ subst Awake (sym (if_false _ direct)) (
        subst IsAwake (sym (send_message-Kept d io.send_ctx bytes now io.channel_stream).same_queue)
          k)
  ]

  send_data_internal-Awake :
      (bytes : List ℕ) (now : ℕ) (io : Io d) → Awake io → Awake (send_data_internal d bytes now io)
  unfolding send_data_internal
  send_data_internal-Awake bytes now io k = elim (Bool-cases (ltb 0 (length bytes))) [
    | inl more ↦ subst Awake (sym (if_true _ more)) (hand_over-Awake bytes now io k)
    | inr nothing ↦ subst Awake (sym (if_false _ nothing)) (hand_over-Awake bytes now io k)
  ]

  pub flush-Awake : (now : ℕ) (io : Io d) → Awake io → Awake (flush d now io)
  unfolding flush
  flush-Awake now io k = send_data_internal-Awake [] now io k

  flush_sent-Awake : (now : ℕ) (io : Io d) → Awake io → Awake (flush_sent d now io)
  unfolding flush_sent
  flush_sent-Awake now io k = elim (Bool-cases io.has_sent) [
    | inl yes_sent ↦ subst Awake (sym (if_true _ yes_sent)) (flush-Awake now io k)
    | inr not_sent ↦ subst Awake (sym (if_false _ not_sent)) k
  ]

  start_async_flush-Awake : (now : ℕ) (io : Io d) → Awake io → Awake (start_async_flush d now io)
  unfolding start_async_flush
  start_async_flush-Awake now io k = elim (Bool-cases io.send_ctx.async) [
    | inl running ↦ subst Awake (sym (if_true _ running)) k
    | inr stopped ↦ subst Awake (sym (if_false _ stopped)) (flush-Awake now io k)
  ]

  take_by-Awake :
      (t : FlushThread) (l : List (List ℕ)) (io : Io d)
      → Awake io
      → Awake (take_by d t (get_from_flush_ctx (record { list = l; asleep = false })) io)
  unfolding get_from_flush_ctx
  take_by-Awake not_started l io k = k
  take_by-Awake (sending p) l io k = k
  take_by-Awake waiting [] io k = λ h. refl
  take_by-Awake waiting (p ∷ l) io k = λ h. absurd (cc h)

  pub take_packet-Awake : (io : Io d) → Awake io → Awake (take_packet d io)
  unfolding take_packet
  take_packet-Awake io k = elim (Bool-cases io.send_ctx.flush_ctx.asleep) [
    | inl sleeps ↦ subst Awake (sym (if_true _ sleeps)) k
    | inr awake ↦ subst Awake (sym (if_false _ awake)) (
        subst
          (λ (a : Bool). Awake (
            take_by d io.flush_thread
              (get_from_flush_ctx (record { list = io.send_ctx.flush_ctx.list; asleep = a })) io))
          (sym awake) (take_by-Awake io.flush_thread io.send_ctx.flush_ctx.list io k))
  ]

  send_by-Awake : (t : FlushThread) (io : Io d) → Awake io → Awake (send_by d t io)
  send_by-Awake not_started io k = k
  send_by-Awake waiting io k = k
  send_by-Awake (sending p) io k = k

  pub send_packet-Awake : (io : Io d) → Awake io → Awake (send_packet d io)
  unfolding send_packet
  send_packet-Awake io k = send_by-Awake io.flush_thread io k

module _ (d : Duplex) (reliable : (p : List ℕ) (s : d.State) → (d.send_ex p s).0 ≡ true) where
  open d use {State}

  stop_async_flush-Awake :
      {first : SendBuffer} {start : List (List ℕ)} {handed : List ℕ} (fuel now : ℕ) (io : Io d)
      {io' : Io d}
      → Carries d first start handed io
      → Awake d io
      → length io.send_ctx.flush_ctx.list < fuel
      → stop_async_flush d fuel now io ≡ ok io'
      → Awake d io'
  stop_async_flush-Awake fuel now io c k short e = elim (Bool-cases io.send_ctx.async) [
    | inl async ↦
        let (io1, result, done) = stop_async_flush-Delivered d reliable fuel now io c async short in
        let empty : io1.send_ctx.flush_ctx.list ≡ [] =
          right_nil (in_flight io1.flush_thread) done.nothing_queued in
        subst (Awake d) (ok-injective (sym result ∙ e)) (λ h. empty)
    | inr direct ↦
        subst (Awake d) (ok-injective (sym (stop_still d reliable fuel now io direct) ∙ e)) k
  ]

  Step-Awake :
      {first : SendBuffer} {start : List (List ℕ)} {handed bytes : List ℕ} {io io' : Io d}
      → Step d io bytes io'
      → Carries d first start handed io
      → Awake d io
      → Awake d io'
  Step-Awake (send_data bytes now io small) c k = send_data_internal-Awake d bytes now io k
  Step-Awake (flush_data now io) c k = flush-Awake d now io k
  Step-Awake (recv_data fuel len now {io} h) c k =
      let read = recv_data_internal-ReadFrom d fuel len now io h in
      subst (Awake d) (sym read.left) (flush_sent-Awake d now io k)
  Step-Awake (thread_starts now io) c k = start_async_flush-Awake d now io k
  Step-Awake (thread_takes io) c k = take_packet-Awake d io k
  Step-Awake (thread_sends io) c k = send_packet-Awake d io k
  Step-Awake (thread_stops fuel now {io} short h) c k =
      stop_async_flush-Awake fuel now io c k short h

  -- In every reachable state the flush thread is asleep only if nothing is queued.
  pub Reach-Awake :
      (is_server : Bool) (now : ℕ) (s : State) {handed : List ℕ} {io : Io d}
      → Reach d (new_io d is_server now s) handed io
      → Awake d io
  unfolding new_send_ctx new_flush_ctx
  Reach-Awake is_server now s here = λ h. refl
  Reach-Awake is_server now s (next r st) =
      Step-Awake st (Reach-Carries d reliable is_server now s r) (Reach-Awake is_server now s r)
