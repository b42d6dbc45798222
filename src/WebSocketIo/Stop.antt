-- ===== src/WebSocketIo/Stop.antt =====
-- The flush thread ends: when the channel is closed, its loop runs out and everything that was handed
-- over is on the wire.
use zktls_bench.Prelude.{
  ℕ, zero, suc, ◌^◌, ◌<◌, ◌≡◌, ◌≢◌, refl, sym, ap, subst, ◌∙◌, true, false, List, [], ◌∷◌, ◌++◌,
  append_assoc, append-nil, length, arith, All, concat, if_true, if_false, Bool-cases, inl, inr,
}
use zktls_bench.Errors.{Outcome, ok, ◌>>=◌, ok-injective}
use zktls_bench.Ws.SendBuffer.{SendBuffer}
use zktls_bench.Ws.SendBuffer.Laws.{Holds}
use zktls_bench.Ws.Send.{SendCtx, async_flush_message}
use zktls_bench.Ws.Send.Laws.{send_message_flush, async_send_message_flush}
use zktls_bench.Ws.FlushCtx.{get_from_flush_ctx, empty_flush_ctx}
use zktls_bench.Ws.Send.Progress.{Progress, frames}
use zktls_bench.WebSocketIo.{
  Duplex, Io, FlushThread, not_started, waiting, sending, sender, flush, send_packet, send_by,
  end_async, async_flush, after_join, stop_async_flush, close, hand_over, send_data_internal,
}
use zktls_bench.WebSocketIo.Fields.{flush-async}
use zktls_bench.WebSocketIo.Steps.{Carries, to_send, in_flight, flush-Carries, send_packet-Carries}

pub nil_of_Holds : {b : SendBuffer} (p : List ℕ) → Holds b p → Holds b [] → p ≡ []
nil_of_Holds [] h k = refl
nil_of_Holds (x ∷ p) h k = absurd (omega (arith, h.end, k.end))

module _ (d : Duplex) (reliable : (p : List ℕ) (s : d.State) → (d.send_ex p s).0 ≡ true) where
  open d use {State, sent, send_ex, flush_stream, send_ex-sent, flush_stream-sent}

  abbrev queued : SendBuffer → List (List ℕ) → SendCtx
  queued b l = record { buffer = b; flush_ctx = record { list = l; asleep = false }; async = false }

  -- The loop sends what is queued, in order, and ends.
  record Drained (outcome : Outcome (SendCtx × State)) (b : SendBuffer) (l : List (List ℕ))
      (s : State) : Type 0 where
    s' : State
    result : outcome ≡ ok (queued b [], s')
    all_sent : sent s' ≡ sent s ++ l

  async_flush-Drained :
      (fuel : ℕ) (b : SendBuffer) (l : List (List ℕ)) (s : State)
      → length l < fuel
      → Drained (async_flush d fuel (queued b l) s) b l s
  unfolding async_flush empty_flush_ctx async_flush_message get_from_flush_ctx
  async_flush-Drained zero b l s h = absurd (omega arith)
  async_flush-Drained (suc fuel) b [] s h = record {
    s' = s;
    result = refl;
    all_sent = sym (append-nil (sent s));
  }
  async_flush-Drained (suc fuel) b (p ∷ l) s h =
      let s1 = flush_stream (send_ex p s).1 in
      let r = async_flush-Drained fuel b l s1 (omega arith) in
      let now_sent : sent s1 ≡ sent s ++ (p ∷ []) =
        flush_stream-sent (send_ex p s).1 ∙ send_ex-sent p s (reliable p s) in
      record {
        s' = r.s';
        result = rw (reliable p s) r.result;
        all_sent = r.all_sent ∙ ap (λ k. k ++ l) now_sent ∙ append_assoc (sent s) (p ∷ []) l;
      }

  -- Everything handed over is on the wire, in frames with the next ids.
  pub record OnWire (first : SendBuffer) (start : List (List ℕ)) (handed : List ℕ) (s : State)
      : Type 0 where
    pub payloads : List (List ℕ)
    pub packets : sent s ≡ start ++ frames first.send_id payloads
    pub all_bytes : concat payloads ≡ handed
    pub nonempty : All (λ p. p ≢ []) payloads

  -- That is so when nothing waits for the thread and nothing is buffered.
  pub Carries-OnWire :
      {first : SendBuffer} {start : List (List ℕ)} {handed : List ℕ} {io : Io d}
      → Carries d first start handed io
      → to_send d io ≡ []
      → Holds io.send_ctx.buffer []
      → OnWire first start handed io.channel_stream
  Carries-OnWire {io = io} c idle empty =
      let p : List (List ℕ) = c.progress.payloads in
      let s : List (List ℕ) = sent io.channel_stream in
      record {
        payloads = p;
        packets = sym (append-nil s) ∙ ap (◌++◌ s) (sym idle) ∙ c.progress.sent;
        all_bytes =
            sym (append-nil (concat p))
            ∙ ap (◌++◌ (concat p)) (sym (nil_of_Holds c.progress.rest c.progress.holds empty))
            ∙ c.progress.bytes_kept;
        nonempty = c.progress.nonempty;
      }

  -- Besides, nothing waits any more.
  pub record Delivered (first : SendBuffer) (start : List (List ℕ)) (handed : List ℕ) (io : Io d)
      : Type 0 where
    pub wire : OnWire first start handed io.channel_stream
    pub nothing_queued : to_send d io ≡ []
    pub nothing_buffered : Holds io.send_ctx.buffer []
    pub stopped : io.send_ctx.async ≡ false

  -- After a flush the send buffer is empty.
  pub flush-Holds :
      {first : SendBuffer} {start : List (List ℕ)} {handed : List ℕ} (now : ℕ) (io : Io d)
      → Carries d first start handed io
      → Holds (flush d now io).send_ctx.buffer []
  unfolding flush send_data_internal hand_over
  flush-Holds now io c =
      let room : io.send_ctx.buffer.buffer_size < 2 ^ 62 =
        omega (arith, c.size, c.progress.same_size) in
      elim (Bool-cases io.send_ctx.async) [
        | inl async ↦
            subst (λ (x : Io d). Holds x.send_ctx.buffer []) (sym (if_true _ async))
              (async_send_message_flush io.send_ctx now c.progress.holds room)
        | inr direct ↦
            subst (λ (x : Io d). Holds x.send_ctx.buffer []) (sym (if_false _ direct))
              (send_message_flush (sender d) reliable io.send_ctx now io.channel_stream
                c.progress.holds room)
      ]

  -- flush, when the main thread sends itself
  flush-Delivered :
      {first : SendBuffer} {start : List (List ℕ)} {handed : List ℕ} (now : ℕ) (io : Io d)
      → Carries d first start handed io
      → io.send_ctx.async ≡ false
      → Delivered first start handed (flush d now io)
  flush-Delivered {first} {start} {handed} now io c direct =
      let io' = flush d now io in
      let c' : Carries d first start handed io' = flush-Carries d reliable now io c in
      let stopped : io'.send_ctx.async ≡ false = flush-async d now io ∙ direct in
      let empty : Holds io'.send_ctx.buffer [] = flush-Holds now io c in
      record {
        wire = Carries-OnWire c' (c'.direct stopped) empty;
        nothing_queued = c'.direct stopped;
        nothing_buffered = empty;
        stopped = stopped;
      }

  send_by-end_async :
      (t : FlushThread) (io : Io d) → send_by d t (end_async d io) ≡ end_async d (send_by d t io)
  send_by-end_async not_started io = refl
  send_by-end_async waiting io = refl
  send_by-end_async (sending p) io = refl

  send_by-in_flight :
      (t : FlushThread) (io : Io d)
      → io.flush_thread ≡ t
      → in_flight (send_by d t io).flush_thread ≡ []
  send_by-in_flight not_started io e = ap in_flight e
  send_by-in_flight waiting io e = ap in_flight e
  send_by-in_flight (sending p) io e = refl

  -- A channel whose thread has just ended a packet, and the loop behind it.
  after_join-Delivered :
      {first : SendBuffer} {start : List (List ℕ)} {handed : List ℕ} (fuel now : ℕ) (io : Io d)
      → Carries d first start handed io
      → in_flight io.flush_thread ≡ []
      → length io.send_ctx.flush_ctx.list < fuel
      → (io' : Io d) × (after_join d now
            (end_async d io)
            (async_flush d fuel (end_async d io).send_ctx io.channel_stream)
          ≡ ok io')
        × Carries d first start handed io'
        × Delivered first start handed io'
  unfolding after_join
  after_join-Delivered {first} {start} {handed} fuel now io c idle short =
      let b : SendBuffer = io.send_ctx.buffer in
      let l : List (List ℕ) = io.send_ctx.flush_ctx.list in
      let r = async_flush-Drained fuel b l io.channel_stream short in
      let io' : Io d = record io {
        send_ctx = queued b [];
        channel_stream = r.s';
        flush_thread = not_started;
      } in
      let packets : sent io.channel_stream ++ (in_flight io.flush_thread ++ l) ≡ sent r.s' ++ [] =
        ap (λ k. sent io.channel_stream ++ (k ++ l)) idle
        ∙ sym r.all_sent
        ∙ sym (append-nil (sent r.s')) in
      let c' : Carries d first start handed io' = record {
        progress = subst (Progress first b [] handed start) packets c.progress;
        direct = λ h. refl;
        size = c.size;
      } in
      (
        flush d now io',
        rw r.result refl,
        flush-Carries d reliable now io' c',
        flush-Delivered now io' c' refl,
      )

  send_by-list :
      (t : FlushThread) (io : Io d)
      → (send_by d t io).send_ctx.flush_ctx.list ≡ io.send_ctx.flush_ctx.list
  send_by-list not_started io = refl
  send_by-list waiting io = refl
  send_by-list (sending p) io = refl

  pub stop_still :
      (fuel now : ℕ) (io : Io d)
      → io.send_ctx.async ≡ false
      → stop_async_flush d fuel now io ≡ ok io
  unfolding stop_async_flush
  stop_still fuel now io direct = if_false _ direct

  stop_running :
      {first : SendBuffer} {start : List (List ℕ)} {handed : List ℕ} (fuel now : ℕ) (io : Io d)
      → Carries d first start handed io
      → io.send_ctx.async ≡ true
      → length io.send_ctx.flush_ctx.list < fuel
      → (io' : Io d) × (stop_async_flush d fuel now io ≡ ok io')
        × Carries d first start handed io'
        × Delivered first start handed io'
  unfolding stop_async_flush send_packet
  stop_running {first} {start} {handed} fuel now io c async short =
      let t : FlushThread = io.flush_thread in
      let (io', result, c', done) =
        after_join-Delivered fuel now (send_by d t io) (send_packet-Carries d reliable io c)
          (send_by-in_flight t io refl) (omega (arith, ap length (send_by-list t io))) in
      (
        io',
        if_true _ async
            ∙ ap (λ (x : Io d). after_join d now x (async_flush d fuel x.send_ctx x.channel_stream))
                (send_by-end_async t io)
            ∙ result,
        c',
        done,
      )

  pub stop_async_flush-Carries :
      {first : SendBuffer} {start : List (List ℕ)} {handed : List ℕ} (fuel now : ℕ) (io : Io d)
      {io' : Io d}
      → Carries d first start handed io
      → length io.send_ctx.flush_ctx.list < fuel
      → stop_async_flush d fuel now io ≡ ok io'
      → Carries d first start handed io'
  stop_async_flush-Carries {first} {start} {handed} fuel now io c short e =
      elim (Bool-cases io.send_ctx.async) [
        | inl async ↦
            let (io1, result, c', done) = stop_running fuel now io c async short in
            subst (Carries d first start handed) (ok-injective (sym result ∙ e)) c'
        | inr direct ↦
            subst (Carries d first start handed)
              (ok-injective (sym (stop_still fuel now io direct) ∙ e)) c
      ]

  -- Over a stream that takes every packet, `stop_async_flush` of an asynchronous channel returns, with
  -- fuel for each queued packet and one: the flush thread ends. Afterwards everything handed over is
  -- on the wire in order, in frames with the next ids, nothing is queued or buffered, and the channel
  -- is no longer asynchronous.
  pub stop_async_flush-Delivered :
      {first : SendBuffer} {start : List (List ℕ)} {handed : List ℕ} (fuel now : ℕ) (io : Io d)
      → Carries d first start handed io
      → io.send_ctx.async ≡ true
      → length io.send_ctx.flush_ctx.list < fuel
      → (io' : Io d) × (stop_async_flush d fuel now io ≡ ok io') × Delivered first start handed io'
  stop_async_flush-Delivered fuel now io c async short =
      let (io', result, c', done) = stop_running fuel now io c async short in (io', result, done)

  -- The destructor, over a stream that takes every packet and from any state that carries `handed`: it
  -- returns, with fuel for each queued packet and one, and everything handed over is on the wire.
  pub close-Delivered :
      {first : SendBuffer} {start : List (List ℕ)} {handed : List ℕ} (fuel now : ℕ) (io : Io d)
      → Carries d first start handed io
      → length io.send_ctx.flush_ctx.list < fuel
      → (io' : Io d) × (close d fuel now io ≡ ok io') × Delivered first start handed io'
  unfolding close
  close-Delivered fuel now io c short = elim (Bool-cases io.send_ctx.async) [
    | inl async ↦
        let (io', result, c', done) = stop_running fuel now io c async short in
        (flush d now io', rw result refl, flush-Delivered now io' c' done.stopped)
    | inr direct ↦ (
      flush d now io,
      ap (λ (r : Outcome (Io d)). r >>= λ x. ok (flush d now x)) (stop_still fuel now io direct),
      flush-Delivered now io c direct,
    )
  ]
