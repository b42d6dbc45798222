-- ===== src/Ws/Send/Laws.antt =====
-- `SendMessage` and `AsyncSendMessage` lose, reorder and repeat no byte.
use zktls_bench.Prelude.{
  ℕ, ◌^◌, ◌<◌, ◌≡◌, refl, sym, true, false, ◌&&◌, Bool-cases, ltb→lt, subst, inl, inr, Option, some,
  List, [], ◌∷◌, ltb, ◌==◌, length, arith,
}
use zktls_bench.Ws.SendBuffer.{SendBuffer, can_put, empty, packet, pack, reset}
use zktls_bench.Ws.SendBuffer.Laws.{Holds}
use zktls_bench.Ws.FlushCtx.{put_to_flush_ctx, put_to_flush_ctx_lem}
use zktls_bench.Ws.Send.{
  SendStream, SendCtx, send_message, send_rest, tmp_packet, async_send_message, queue_buffer,
  queue_rest,
}
use zktls_bench.Ws.Send.Progress.{
  Progress, Progress-stay, Progress-put, Progress-tmp, empty-Holds_nil, Progress-flush_then,
  reset-pack_fields,
}

nil_of_length : (xs : List ℕ) → ltb 0 (length xs) ≡ false → xs ≡ []
nil_of_length [] h = refl
nil_of_length (x ∷ xs) h = absurd (ground arith)

module _ (stream : SendStream)
    (reliable : (p : List ℕ) (s : stream.State) → (stream.send_ex p s).0 ≡ true) where
  open stream use {State, sent, send_ex, send_ex-sent}

  -- What a send of `xs` into a buffer that holds `p` has to come to.
  abbrev pub Sends : SendBuffer → List ℕ → List ℕ → State → Option ℕ × SendCtx × State → Type 0
  Sends b p xs s r = (r.0 ≡ some (length xs)) × Progress b r.1.buffer p xs (sent s) (sent r.2)

  send_rest-Sends :
      (ctx : SendCtx) (xs : List ℕ) (now : ℕ) (s : State)
      → Holds ctx.buffer []
      → ctx.buffer.buffer_size < 2 ^ 62
      → length xs < 2 ^ 62
      → Sends ctx.buffer [] xs s (send_rest stream ctx xs now s)
  unfolding send_rest
  send_rest-Sends ctx xs now s h size small =
      elim (Bool-cases (ltb 0 (length xs) && can_put ctx.buffer (length xs))) [
        | inl fits ↦
            rw (fits, send_rest) (refl, Progress-put xs (sent s) h (omega arith) (ground arith))
        | inr full ↦ elim (Bool-cases (ltb 0 (length xs))) [
          | inl some_bytes ↦
              let tmp : List ℕ = (tmp_packet ctx.buffer xs now).0 in
              rw (full, some_bytes, reliable tmp s, send_rest)
                (
                  refl,
                  Progress-tmp xs now h small (ltb→lt 0 (length xs) some_bytes)
                      (send_ex-sent tmp s (reliable tmp s)),
                )
          | inr none_left ↦
              rw (full, none_left, send_rest)
                (
                  refl,
                  subst (λ l. Progress ctx.buffer ctx.buffer [] l (sent s) (sent s))
                      (sym (nil_of_length xs none_left)) (Progress-stay (sent s) h),
                )
        ]
      ]

  -- Over a stream that takes every packet, `SendMessage` reports the length of the message, and
  -- what it puts on the wire and keeps in its buffer is what the buffer held, then the message.
  pub send_message-Progress :
      (ctx : SendCtx) (xs : List ℕ) (now : ℕ) (s : State) {p : List ℕ}
      → Holds ctx.buffer p
      → ctx.buffer.buffer_size < 2 ^ 62
      → length xs < 2 ^ 62
      → Sends ctx.buffer p xs s (send_message stream ctx xs now s)
  unfolding send_message
  send_message-Progress ctx xs now s {p} h size small =
      elim (Bool-cases (ltb 0 (length xs) && can_put ctx.buffer (length xs))) [
        | inl fits ↦
            rw (fits, send_message) (refl, Progress-put xs (sent s) h (omega arith) (ground arith))
        | inr full ↦ elim (Bool-cases (empty ctx.buffer)) [
          | inl is_empty ↦
              let nothing : p ≡ [] = empty-Holds_nil p h is_empty in
              rw (full, is_empty, send_message)
                (subst (λ q. Sends ctx.buffer q xs s (send_rest stream ctx xs now s)) (sym nothing)
                  (send_rest-Sends ctx xs now s (rw nothing at h) size small))
          | inr holding ↦
              let packed : List ℕ = packet (pack ctx.buffer) in
              let cleared : SendCtx = record ctx { buffer = reset (pack ctx.buffer) } in
              let fields = reset-pack_fields h (omega arith) in
              let (done, taken) =
                send_rest-Sends cleared xs now (send_ex packed s).1 fields.0 (omega (arith, fields))
                  small in
              rw (full, holding, reliable packed s, send_message)
                (
                  done,
                  Progress-flush_then h (omega arith) holding
                      (send_ex-sent packed s (reliable packed s)) taken,
                )
        ]
      ]

  -- An empty message is a flush: what the buffer held is sent, and it holds nothing.
  pub send_message_flush :
      (ctx : SendCtx) (now : ℕ) (s : State) {p : List ℕ}
      → Holds ctx.buffer p
      → ctx.buffer.buffer_size < 2 ^ 62
      → Holds (send_message stream ctx [] now s).1.buffer []
  unfolding send_message send_rest
  send_message_flush ctx now s {p} h size = elim (Bool-cases (empty ctx.buffer)) [
    | inl is_empty ↦ rw (is_empty, send_message) (rw (empty-Holds_nil p h is_empty) at h)
    | inr holding ↦
        rw (holding, reliable (packet (pack ctx.buffer)) s, send_message)
          (reset-pack_fields h (omega arith)).0
  ]

-- A step whose packets go to the queue of the flush thread.
abbrev pub Queues : SendCtx → List ℕ → List ℕ → ℕ × SendCtx → Type 0
Queues ctx p xs r =
    (r.0 ≡ length xs) × Progress ctx.buffer r.1.buffer p xs ctx.flush_ctx.list r.1.flush_ctx.list

queue_rest-Queues :
    (ctx : SendCtx) (xs : List ℕ) (now : ℕ)
    → Holds ctx.buffer []
    → ctx.buffer.buffer_size < 2 ^ 62
    → length xs < 2 ^ 62
    → Queues ctx [] xs (queue_rest ctx xs now)
unfolding queue_rest
queue_rest-Queues ctx xs now h size small =
    let before : List (List ℕ) = ctx.flush_ctx.list in
    elim (Bool-cases (ltb 0 (length xs) && can_put ctx.buffer (length xs))) [
      | inl fits ↦
          rw (fits, queue_rest) (refl, Progress-put xs before h (omega arith) (ground arith))
      | inr full ↦ elim (Bool-cases (ltb 0 (length xs))) [
        | inl some_bytes ↦
            rw (full, some_bytes, queue_rest)
              (
                refl,
                Progress-tmp xs now h small (ltb→lt 0 (length xs) some_bytes)
                    (put_to_flush_ctx_lem ctx.flush_ctx (tmp_packet ctx.buffer xs now).0),
              )
        | inr none_left ↦
            rw (full, none_left, queue_rest)
              (
                refl,
                subst (λ l. Progress ctx.buffer ctx.buffer [] l before before)
                    (sym (nil_of_length xs none_left)) (Progress-stay before h),
              )
      ]
    ]

-- The flush that opens `AsyncSendMessage`, and a step from what it leaves.
queue_buffer_then :
    (ctx : SendCtx) {p : List ℕ} (xs : List ℕ) (next : SendCtx → ℕ × SendCtx)
    → Holds ctx.buffer p
    → ctx.buffer.buffer_size < 2 ^ 62
    → ((c : SendCtx) → Holds c.buffer [] → c.buffer.buffer_size < 2 ^ 62 → Queues c [] xs (next c))
    → Queues ctx p xs (next (queue_buffer ctx))
unfolding queue_buffer
queue_buffer_then ctx {p} xs next h size step = elim (Bool-cases (empty ctx.buffer)) [
  | inl is_empty ↦
      let nothing : p ≡ [] = empty-Holds_nil p h is_empty in
      rw (is_empty, queue_buffer)
        (subst (λ q. Queues ctx q xs (next ctx)) (sym nothing) (step ctx (rw nothing at h) size))
  | inr holding ↦
      let packed : List ℕ = packet (pack ctx.buffer) in
      let cleared : SendCtx = record ctx {
        buffer = reset (pack ctx.buffer);
        flush_ctx = put_to_flush_ctx ctx.flush_ctx packed;
      } in
      let fields = reset-pack_fields h (omega arith) in
      let (done, taken) = step cleared fields.0 (omega (arith, fields)) in
      rw (holding, queue_buffer)
        (
          done,
          Progress-flush_then h (omega arith) holding (put_to_flush_ctx_lem ctx.flush_ctx packed)
              taken,
        )
]

-- `AsyncSendMessage` always reports the length of the message; what it queues for the flush thread
-- and keeps in its buffer is what the buffer held, then the message.
pub async_send_message-Progress :
    (ctx : SendCtx) (xs : List ℕ) (now : ℕ) {p : List ℕ}
    → Holds ctx.buffer p
    → ctx.buffer.buffer_size < 2 ^ 62
    → length xs < 2 ^ 62
    → Queues ctx p xs (async_send_message ctx xs now)
unfolding async_send_message
async_send_message-Progress ctx [] now h size small =
    queue_buffer_then ctx [] (λ c. (0, c)) h size
      (λ c held _. (refl, Progress-stay c.flush_ctx.list held))
async_send_message-Progress ctx (x ∷ xs) now h size small =
    let len : ℕ = length (x ∷ xs) in
    let some_bytes : (len == 0) ≡ false = ground arith in
    elim (Bool-cases (ltb 0 len && can_put ctx.buffer len)) [
      | inl fits ↦
          rw (some_bytes, fits, async_send_message)
            (refl, Progress-put (x ∷ xs) ctx.flush_ctx.list h (omega arith) (ground arith))
      | inr full ↦
          rw (some_bytes, full, async_send_message)
            (queue_buffer_then ctx (x ∷ xs) (λ c. queue_rest c (x ∷ xs) now) h size
              (λ c held fits. queue_rest-Queues c (x ∷ xs) now held fits small))
    ]

-- An empty message is a flush: afterwards the buffer holds nothing, so that everything handed over
-- so far is queued.
pub async_send_message_flush :
    (ctx : SendCtx) (now : ℕ) {p : List ℕ}
    → Holds ctx.buffer p
    → ctx.buffer.buffer_size < 2 ^ 62
    → Holds (async_send_message ctx [] now).1.buffer []
unfolding async_send_message queue_buffer
async_send_message_flush ctx now {p} h size = elim (Bool-cases (empty ctx.buffer)) [
  | inl is_empty ↦ rw (is_empty, queue_buffer) (rw (empty-Holds_nil p h is_empty) at h)
  | inr holding ↦ rw (holding, queue_buffer) (reset-pack_fields h (omega arith)).0
]
