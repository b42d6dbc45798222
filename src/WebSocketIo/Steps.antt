-- ===== src/WebSocketIo/Steps.antt =====
-- Interleavings of a channel's main thread with its flush thread: whatever the order of their steps,
-- no byte that was handed over is lost, repeated or overtaken.
use zktls_bench.Prelude.{
  ℕ, ◌^◌, ◌<◌, ◌≡◌, refl, sym, ap, subst, ◌∙◌, Bool, true, false, Bool-cases, inl, inr, List, [],
  ◌∷◌, ◌++◌, append_assoc, append-nil, length, arith, if_true, if_false, ltb,
}
use mathlib.Core.Path.{subst₂}
use zktls_bench.Ws.FlushCtx.{FlushCtx, get_from_flush_ctx}
use zktls_bench.Ws.SendBuffer.{SendBuffer}
use zktls_bench.Ws.Send.{send_message, async_send_message}
use zktls_bench.Ws.Send.Progress.{Progress, Progress-trans, frames}
use zktls_bench.Ws.Send.Laws.{Sends, Queues, send_message-Progress, async_send_message-Progress}
use zktls_bench.WebSocketIo.{
  Duplex, FlushThread, not_started, waiting, sending, Io, sender, hand_over, send_data_internal,
  flush, flush_sent, start_async_flush, take_packet, send_packet, take_by, send_by,
}
use zktls_bench.WebSocketIo.Reads.{ReadFrom}
use zktls_bench.WebSocketIo.Fields.{send_message-Kept, async_send_message-async, flush-async}

pub right_nil : (xs : List (List ℕ)) {ys : List (List ℕ)} → xs ++ ys ≡ [] → ys ≡ []
right_nil [] h = h
right_nil (x ∷ xs) h = cc

alone : {xs ys : List (List ℕ)} → ys ≡ [] → xs ≡ xs ++ ys
alone {xs} h = sym (append-nil xs) ∙ ap (◌++◌ xs) (sym h)

-- The packet that the flush thread has taken.
abbrev pub in_flight : FlushThread → List (List ℕ)
in_flight not_started = []
in_flight waiting = []
in_flight (sending p) = p ∷ []

Progress-behind :
    {b b' : SendBuffer} {held bytes : List ℕ} {before after : List (List ℕ)} (front : List (List ℕ))
    → Progress b b' held bytes before after
    → Progress b b' held bytes (front ++ before) (front ++ after)
Progress-behind {b} {before = before} front p = record {
  payloads = p.payloads;
  rest = p.rest;
  holds = p.holds;
  sent = ap (◌++◌ front) p.sent ∙ sym (append_assoc front before (frames b.send_id p.payloads));
  ids = p.ids;
  bytes_kept = p.bytes_kept;
  nonempty = p.nonempty;
  same_size = p.same_size;
}

module _ (d : Duplex) where
  open d use {State, sent, pending, send_ex, flush_stream}

  -- The packets that the flush thread has still to send, and all packets so far.
  abbrev pub to_send : Io d → List (List ℕ)
  to_send io = in_flight io.flush_thread ++ io.send_ctx.flush_ctx.list

  abbrev pub all_packets : Io d → List (List ℕ)
  all_packets io = sent io.channel_stream ++ to_send io

  -- From a buffer `first` with `start` sent, `handed` was handed over: the packets sent, the one being
  -- sent and those queued are its payloads in order, in frames with the next ids, and the buffer
  -- holds the rest. Without a flush thread nothing waits for it.
  pub record Carries (first : SendBuffer) (start : List (List ℕ)) (handed : List ℕ) (io : Io d)
      : Type 0 where
    pub progress : Progress first io.send_ctx.buffer [] handed start (all_packets io)
    pub direct : io.send_ctx.async ≡ false → to_send io ≡ []
    pub size : first.buffer_size < 2 ^ 62

module _ (d : Duplex) (reliable : (p : List ℕ) (s : d.State) → (d.send_ex p s).0 ≡ true) where
  open d use {State, sent, pending, send_ex, flush_stream, send_ex-sent, flush_stream-sent}

  module _ {first : SendBuffer} {start : List (List ℕ)} where
    hand_over_queued :
        {handed : List ℕ} (bytes : List ℕ) (now : ℕ) (io : Io d)
        → length bytes < 2 ^ 62
        → (c : Carries d first start handed io) → io.send_ctx.async ≡ true
        → Carries d first start
            (handed ++ bytes)
            (record io { send_ctx = (async_send_message io.send_ctx bytes now).1 })
    hand_over_queued {handed} bytes now io small c async =
        let front : List (List ℕ) = sent io.channel_stream ++ in_flight io.flush_thread in
        let q : Queues io.send_ctx c.progress.rest bytes
            (async_send_message io.send_ctx bytes now) =
          async_send_message-Progress io.send_ctx bytes now c.progress.holds
            (omega (arith, c.size, c.progress.same_size)) small in
        let assoc = append_assoc (sent io.channel_stream) (in_flight io.flush_thread) in
        record {
          progress = Progress-trans c.progress (
              subst₂
                (λ s t.
                  Progress io.send_ctx.buffer (async_send_message io.send_ctx bytes now).1.buffer
                    c.progress.rest bytes s t)
                (assoc io.send_ctx.flush_ctx.list)
                (assoc (async_send_message io.send_ctx bytes now).1.flush_ctx.list)
                (Progress-behind front q.1));
          direct = λ h. absurd (ground (arith, async_send_message-async io.send_ctx bytes now));
          size = c.size;
        }

    hand_over_direct :
        {handed : List ℕ} (bytes : List ℕ) (now : ℕ) (io : Io d)
        → length bytes < 2 ^ 62
        → (c : Carries d first start handed io) → io.send_ctx.async ≡ false
        → Carries d first start (handed ++ bytes) (record io {
          send_ctx = (send_message (sender d) io.send_ctx bytes now io.channel_stream).1;
          channel_stream = (send_message (sender d) io.send_ctx bytes now io.channel_stream).2;
        })
    hand_over_direct bytes now io small c direct =
        let s : State = io.channel_stream in
        let r = send_message (sender d) io.send_ctx bytes now s in
        let m : Sends (sender d) reliable io.send_ctx.buffer c.progress.rest bytes s
            (send_message (sender d) io.send_ctx bytes now s) =
          send_message-Progress (sender d) reliable io.send_ctx bytes now s c.progress.holds
            (omega (arith, c.size, c.progress.same_size)) small in
        let k = send_message-Kept d io.send_ctx bytes now s in
        let nothing : to_send d io ≡ [] = c.direct direct in
        let nothing' : in_flight io.flush_thread ++ r.1.flush_ctx.list ≡ [] =
          ap (λ (q : FlushCtx). in_flight io.flush_thread ++ q.list) k.same_queue ∙ nothing in
        record {
          progress = Progress-trans c.progress (
              subst₂ (λ s t. Progress io.send_ctx.buffer r.1.buffer c.progress.rest bytes s t)
                (alone nothing) (alone nothing') m.1);
          direct = λ h. nothing';
          size = c.size;
        }

    hand_over-Carries :
        {handed : List ℕ} (bytes : List ℕ) (now : ℕ) (io : Io d)
        → length bytes < 2 ^ 62
        → Carries d first start handed io
        → Carries d first start (handed ++ bytes) (hand_over d bytes now io)
    unfolding hand_over
    hand_over-Carries {handed} bytes now io small c = elim (Bool-cases io.send_ctx.async) [
      | inl async ↦
          subst (Carries d first start (handed ++ bytes)) (sym (if_true _ async))
            (hand_over_queued bytes now io small c async)
      | inr direct ↦
          subst (Carries d first start (handed ++ bytes)) (sym (if_false _ direct))
            (hand_over_direct bytes now io small c direct)
    ]

    -- What happened to the stream outside its list of packets does not count.
    Carries-stream :
        {handed : List ℕ} (io : Io d) (s : State)
        → sent s ≡ sent io.channel_stream
        → Carries d first start handed io
        → Carries d first start handed (record io { channel_stream = s })
    Carries-stream {handed} io s e c = record {
      progress =
          subst
            (λ (l : List (List ℕ)).
              Progress first io.send_ctx.buffer [] handed start (l ++ to_send d io))
            (sym e) c.progress;
      direct = c.direct;
      size = c.size;
    }

    Carries-flag :
        {handed : List ℕ} (io : Io d) (b : Bool)
        → Carries d first start handed io
        → Carries d first start handed (record io { has_sent = b })
    Carries-flag io b c = record { progress = c.progress; direct = c.direct; size = c.size }

    pub send_data_internal-Carries :
        {handed : List ℕ} (bytes : List ℕ) (now : ℕ) (io : Io d)
        → length bytes < 2 ^ 62
        → Carries d first start handed io
        → Carries d first start (handed ++ bytes) (send_data_internal d bytes now io)
    unfolding send_data_internal
    send_data_internal-Carries {handed} bytes now io small c =
        elim (Bool-cases (ltb 0 (length bytes))) [
          | inl more ↦ subst (Carries d first start (handed ++ bytes)) (sym (if_true _ more)) (
              Carries-flag (hand_over d bytes now io) true (hand_over-Carries bytes now io small c))
          | inr none_left ↦
              subst (Carries d first start (handed ++ bytes)) (sym (if_false _ none_left))
                (hand_over-Carries bytes now io small c)
        ]

    pub flush-Carries :
        {handed : List ℕ} (now : ℕ) (io : Io d)
        → Carries d first start handed io
        → Carries d first start handed (flush d now io)
    unfolding flush
    flush-Carries {handed} now io c =
        let handed' = send_data_internal d [] now io in
        Carries-stream handed' (flush_stream handed'.channel_stream)
          (flush_stream-sent handed'.channel_stream)
          (subst (λ l. Carries d first start l handed') (append-nil handed)
            (send_data_internal-Carries [] now io (omega arith) c))

    pub flush_sent-Carries :
        {handed : List ℕ} (now : ℕ) (io : Io d)
        → Carries d first start handed io
        → Carries d first start handed (flush_sent d now io)
    unfolding flush_sent
    flush_sent-Carries {handed} now io c = elim (Bool-cases io.has_sent) [
      | inl yes_sent ↦
          subst (Carries d first start handed) (sym (if_true _ yes_sent))
            (Carries-flag (flush d now io) false (flush-Carries now io c))
      | inr not_sent ↦ subst (Carries d first start handed) (sym (if_false _ not_sent)) c
    ]

    -- A read: the flush before it, and nothing else that is sent.
    pub Carries-read :
        {handed : List ℕ} {fuel len now : ℕ} {io : Io d} {bytes : List ℕ} {io' : Io d}
        → ReadFrom d fuel len now io bytes io'
        → Carries d first start handed io
        → Carries d first start handed io'
    Carries-read {handed} {now = now} {io} r c =
        let before = flush_sent d now io in
        let c' = Carries-stream before r.s r.same_sent (flush_sent-Carries now io c) in
        subst (Carries d first start handed) (sym r.left)
          (record { progress = c'.progress; direct = c'.direct; size = c'.size })

    pub start_async_flush-Carries :
        {handed : List ℕ} (now : ℕ) (io : Io d)
        → Carries d first start handed io
        → Carries d first start handed (start_async_flush d now io)
    unfolding start_async_flush
    start_async_flush-Carries {handed} now io c = elim (Bool-cases io.send_ctx.async) [
      | inl running ↦ subst (Carries d first start handed) (sym (if_true _ running)) c
      | inr stopped ↦
          let io' = flush d now io in
          let c' : Carries d first start handed io' = flush-Carries now io c in
          let nothing : io'.send_ctx.flush_ctx.list ≡ [] =
            right_nil (in_flight io'.flush_thread) (c'.direct (flush-async d now io ∙ stopped)) in
          subst (Carries d first start handed) (sym (if_false _ stopped)) (record {
            progress =
                subst
                  (λ (l : List (List ℕ)).
                    Progress first io'.send_ctx.buffer [] handed start
                      (sent io'.channel_stream ++ l))
                  (c'.direct (flush-async d now io ∙ stopped) ∙ sym nothing) c'.progress;
            direct = λ h. absurd (ground (arith, h));
            size = c'.size;
          })
    ]

    take_by-Carries :
        {handed : List ℕ} (t : FlushThread) (l : List (List ℕ)) (asleep : Bool) (io : Io d)
        → io.flush_thread ≡ t
        → io.send_ctx.flush_ctx.list ≡ l
        → Carries d first start handed io
        → Carries d first start handed
            (take_by d t (get_from_flush_ctx (record { list = l; asleep = asleep })) io)
    unfolding get_from_flush_ctx
    take_by-Carries not_started l asleep io e f c = c
    take_by-Carries (sending p) l asleep io e f c = c
    take_by-Carries {handed} waiting [] asleep io e f c = record {
      progress =
          subst
            (λ (k : List (List ℕ)).
              Progress first io.send_ctx.buffer [] handed start
                (sent io.channel_stream ++ (in_flight io.flush_thread ++ k)))
            f c.progress;
      direct =
          λ h. subst (λ (k : List (List ℕ)). in_flight io.flush_thread ++ k ≡ []) f (c.direct h);
      size = c.size;
    }
    take_by-Carries {handed} waiting (p ∷ l) asleep io e f c = record {
      progress =
          subst₂
            (λ (t : FlushThread) (k : List (List ℕ)).
              Progress first io.send_ctx.buffer [] handed start
                (sent io.channel_stream ++ (in_flight t ++ k)))
            e f c.progress;
      direct = λ h.
          subst₂ (λ (t : FlushThread) (k : List (List ℕ)). in_flight t ++ k ≡ []) e f (c.direct h);
      size = c.size;
    }

    pub take_packet-Carries :
        {handed : List ℕ} (io : Io d)
        → Carries d first start handed io
        → Carries d first start handed (take_packet d io)
    unfolding take_packet
    take_packet-Carries {handed} io c = elim (Bool-cases io.send_ctx.flush_ctx.asleep) [
      | inl sleeps ↦ subst (Carries d first start handed) (sym (if_true _ sleeps)) c
      | inr awake ↦ subst (Carries d first start handed) (sym (if_false _ awake)) (
          take_by-Carries io.flush_thread io.send_ctx.flush_ctx.list io.send_ctx.flush_ctx.asleep io
            refl refl c)
    ]

    send_by-Carries :
        {handed : List ℕ} (t : FlushThread) (io : Io d)
        → io.flush_thread ≡ t
        → Carries d first start handed io
        → Carries d first start handed (send_by d t io)
    send_by-Carries not_started io e c = c
    send_by-Carries waiting io e c = c
    send_by-Carries {handed} (sending p) io e c =
        let s : State = io.channel_stream in
        let q : List (List ℕ) = io.send_ctx.flush_ctx.list in
        let now_sent : sent (flush_stream (send_ex p s).1) ≡ sent s ++ (p ∷ []) =
          flush_stream-sent (send_ex p s).1 ∙ send_ex-sent p s (reliable p s) in
        let packets : sent s ++ (in_flight io.flush_thread ++ q)
            ≡ sent (flush_stream (send_ex p s).1) ++ q =
          ap (λ (t : FlushThread). sent s ++ (in_flight t ++ q)) e
          ∙ sym (append_assoc (sent s) (p ∷ []) q)
          ∙ ap (λ l. l ++ q) (sym now_sent) in
        rw (reliable p s) (record {
          progress = subst (Progress first io.send_ctx.buffer [] handed start) packets c.progress;
          direct = λ h. right_nil (in_flight io.flush_thread) (c.direct h);
          size = c.size;
        })

    pub send_packet-Carries :
        {handed : List ℕ} (io : Io d)
        → Carries d first start handed io
        → Carries d first start handed (send_packet d io)
    unfolding send_packet
    send_packet-Carries io c = send_by-Carries io.flush_thread io refl c
