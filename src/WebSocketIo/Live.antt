-- ===== src/WebSocketIo/Live.antt =====
-- The flush thread makes progress: an asynchronous channel has its thread, and rounds of the thread
-- bring everything that was flushed onto the wire.
use zktls_bench.Prelude.{
  ℕ, zero, suc, ◌<◌, ◌≤◌, ◌≡◌, ◌≢◌, ◌-◌, refl, sym, ap₂, subst, ◌∙◌, Bool, true, false, List, [],
  ◌∷◌, ◌++◌, length, arith, Bool-cases, inl, inr,
}
use zktls_bench.Errors.{ok, ok-injective}
use zktls_bench.Ws.SendBuffer.{SendBuffer}
use zktls_bench.Ws.SendBuffer.Laws.{Holds}
use zktls_bench.Ws.FlushCtx.{get_from_flush_ctx}
use zktls_bench.Ws.Send.{new_send_ctx}
use zktls_bench.WebSocketIo.{
  Duplex, Io, FlushThread, not_started, waiting, sending, new_io, hand_over, send_data_internal,
  flush, flush_sent, start_async_flush, take_packet, send_packet, stop_async_flush,
}
use zktls_bench.WebSocketIo.Fields.{hand_over-async, flush-async}
use zktls_bench.WebSocketIo.Steps.{
  Carries, in_flight, to_send, flush-Carries, take_packet-Carries, send_packet-Carries,
}
use zktls_bench.WebSocketIo.Reads.{recv_data_internal-ReadFrom}
use zktls_bench.WebSocketIo.Stop.{
  OnWire, Carries-OnWire, flush-Holds, stop_async_flush-Delivered, stop_still,
}
use zktls_bench.WebSocketIo.Reachable.{
  Step, send_data, flush_data, recv_data, thread_starts, thread_takes, thread_sends, thread_stops,
  Reach, here, next, Reach-Carries,
}
use zktls_bench.WebSocketIo.Wakes.{
  Awake, flush-Awake, take_packet-Awake, send_packet-Awake, Reach-Awake,
}

module _ (d : Duplex) where
  -- An asynchronous channel has a thread.
  abbrev pub Runs : Io d → Type 0
  Runs io = io.send_ctx.async ≡ true → io.flush_thread ≢ not_started

  hand_over-thread :
      (bytes : List ℕ) (now : ℕ) (io : Io d)
      → (hand_over d bytes now io).flush_thread ≡ io.flush_thread
  unfolding hand_over
  hand_over-thread bytes now io = ground arith

  send_data_internal-Runs :
      (bytes : List ℕ) (now : ℕ) (io : Io d) → Runs io → Runs (send_data_internal d bytes now io)
  unfolding send_data_internal
  send_data_internal-Runs bytes now io r h =
      ground (arith, hand_over-thread bytes now io, hand_over-async d bytes now io)

  flush-Runs : (now : ℕ) (io : Io d) → Runs io → Runs (flush d now io)
  unfolding flush
  flush-Runs now io r = send_data_internal-Runs [] now io r

  flush_sent-Runs : (now : ℕ) (io : Io d) → Runs io → Runs (flush_sent d now io)
  unfolding flush_sent
  flush_sent-Runs now io r h = ground (arith, flush-Runs now io r)

  start_async_flush-Runs : (now : ℕ) (io : Io d) → Runs io → Runs (start_async_flush d now io)
  unfolding start_async_flush
  start_async_flush-Runs now io r h = ground arith

  take_packet-Runs : (io : Io d) → Runs io → Runs (take_packet d io)
  unfolding take_packet get_from_flush_ctx
  take_packet-Runs io r h = ground arith

  send_packet-Runs : (io : Io d) → Runs io → Runs (send_packet d io)
  unfolding send_packet
  send_packet-Runs io r h = ground arith

  -- One round of the flush thread, from wherever it is: it ends the packet that it is sending, takes
  -- the next one and sends it.
  unfoldable pub thread_round : Io d → Io d
  thread_round io = send_packet d (take_packet d (send_packet d io))

  unfoldable pub thread_rounds : ℕ → Io d → Io d
  thread_rounds zero io = io
  thread_rounds (suc n) io = thread_rounds n (thread_round io)

module _ (d : Duplex) (reliable : (p : List ℕ) (s : d.State) → (d.send_ex p s).0 ≡ true) where
  open d use {State, sent}

  stop_async_flush-Runs :
      {first : SendBuffer} {start : List (List ℕ)} {handed : List ℕ} (fuel now : ℕ) (io : Io d)
      {io' : Io d}
      → Carries d first start handed io
      → Runs d io
      → length io.send_ctx.flush_ctx.list < fuel
      → stop_async_flush d fuel now io ≡ ok io'
      → Runs d io'
  stop_async_flush-Runs fuel now io c runs short e = elim (Bool-cases io.send_ctx.async) [
    | inl async ↦
        let (io1, result, done) = stop_async_flush-Delivered d reliable fuel now io c async short in
        let stopped : io1.send_ctx.async ≡ false = done.stopped in
        subst (Runs d) (ok-injective (sym result ∙ e)) (λ h. absurd (ground arith))
    | inr direct ↦
        subst (Runs d) (ok-injective (sym (stop_still d reliable fuel now io direct) ∙ e)) runs
  ]

  Step-Runs :
      {first : SendBuffer} {start : List (List ℕ)} {handed bytes : List ℕ} {io io' : Io d}
      → Step d io bytes io'
      → Carries d first start handed io
      → Runs d io
      → Runs d io'
  Step-Runs (send_data bytes now io small) c r = send_data_internal-Runs d bytes now io r
  Step-Runs (flush_data now io) c r = flush-Runs d now io r
  Step-Runs (recv_data fuel len now {io} h) c r =
      let read = recv_data_internal-ReadFrom d fuel len now io h in
      subst (Runs d) (sym read.left) (flush_sent-Runs d now io r)
  Step-Runs (thread_starts now io) c r = start_async_flush-Runs d now io r
  Step-Runs (thread_takes io) c r = take_packet-Runs d io r
  Step-Runs (thread_sends io) c r = send_packet-Runs d io r
  Step-Runs (thread_stops fuel now {io} short h) c r = stop_async_flush-Runs fuel now io c r short h

  -- In every reachable state an asynchronous channel has its flush thread.
  pub Reach-Runs :
      (is_server : Bool) (now : ℕ) (s : State) {handed : List ℕ} {io : Io d}
      → Reach d (new_io d is_server now s) handed io
      → Runs d io
  unfolding new_send_ctx
  Reach-Runs is_server now s here = λ h. absurd (ground arith)
  Reach-Runs is_server now s (next r st) =
      Step-Runs st (Reach-Carries d reliable is_server now s r) (Reach-Runs is_server now s r)

  round-Carries :
      {first : SendBuffer} {start : List (List ℕ)} {handed : List ℕ} (io : Io d)
      → Carries d first start handed io
      → Carries d first start handed (thread_round d io)
  unfolding thread_round
  round-Carries io c =
      send_packet-Carries d reliable (take_packet d (send_packet d io))
        (take_packet-Carries d reliable (send_packet d io) (send_packet-Carries d reliable io c))

  -- A round leaves one packet less in the queue, and none with the thread.
  record Went (l : List (List ℕ)) (io io' : Io d) : Type 0 where
    idle : in_flight io'.flush_thread ≡ []
    started : io'.flush_thread ≢ not_started
    shorter : length io'.send_ctx.flush_ctx.list ≡ length l - 1
    same_buffer : io'.send_ctx.buffer ≡ io.send_ctx.buffer

  Awake-if :
      (p : List ℕ) (l : List (List ℕ)) (io : Io d)
      → io.send_ctx.flush_ctx.list ≡ p ∷ l
      → Awake d io
      → io.send_ctx.flush_ctx.asleep ≡ false
  Awake-if p l io f k = elim (Bool-cases io.send_ctx.flush_ctx.asleep) [
    | inl sleeps ↦ absurd (cc (k sleeps, f))
    | inr awake ↦ awake
  ]

  round-Awake : (io : Io d) → Awake d io → Awake d (thread_round d io)
  unfolding thread_round
  round-Awake io k =
      send_packet-Awake d (take_packet d (send_packet d io))
        (take_packet-Awake d (send_packet d io) (send_packet-Awake d io k))

  round_by :
      (t : FlushThread) (l : List (List ℕ)) (io : Io d)
      → io.flush_thread ≡ t
      → io.send_ctx.flush_ctx.list ≡ l
      → t ≢ not_started
      → Awake d io
      → Went l io (thread_round d io)
  unfolding thread_round take_packet send_packet get_from_flush_ctx
  round_by not_started l io e f h k = absurd (h refl)
  round_by waiting [] io e f h k = ground arith
  round_by waiting (p ∷ l) io e f h k = let awake = Awake-if p l io f k in ground arith
  round_by (sending q) [] io e f h k = ground arith
  round_by (sending q) (p ∷ l) io e f h k = let awake = Awake-if p l io f k in ground arith

  record Idle (first : SendBuffer) (start : List (List ℕ)) (handed : List ℕ) (io io' : Io d)
      : Type 0 where
    carries : Carries d first start handed io'
    idle : to_send d io' ≡ []
    same_buffer : io'.send_ctx.buffer ≡ io.send_ctx.buffer

  nil_of_short : (l : List (List ℕ)) → length l ≤ 0 → l ≡ []
  nil_of_short [] h = refl
  nil_of_short (p ∷ l) h = absurd (omega arith)

  rounds-Idle :
      {first : SendBuffer} {start : List (List ℕ)} {handed : List ℕ} (n : ℕ) (io : Io d)
      → Carries d first start handed io
      → Awake d io
      → io.flush_thread ≢ not_started
      → in_flight io.flush_thread ≡ []
      → length io.send_ctx.flush_ctx.list ≤ n
      → Idle first start handed io (thread_rounds d n io)
  unfolding thread_rounds
  rounds-Idle zero io c k h idle short = record {
    carries = c;
    idle = ap₂ ◌++◌ idle (nil_of_short io.send_ctx.flush_ctx.list short);
    same_buffer = refl;
  }
  rounds-Idle (suc n) io c k h idle short =
      let w = round_by io.flush_thread io.send_ctx.flush_ctx.list io refl refl h k in
      let r =
        rounds-Idle n (thread_round d io) (round-Carries io c) (round-Awake io k) w.started w.idle
          (omega (arith, w.shorter)) in
      record { carries = r.carries; idle = r.idle; same_buffer = r.same_buffer ∙ w.same_buffer }

  flush_then_rounds :
      {first : SendBuffer} {start : List (List ℕ)} {handed : List ℕ} (n now : ℕ) (io : Io d)
      → Carries d first start handed io
      → Runs d io
      → Awake d io
      → io.send_ctx.async ≡ true
      → length (flush d now io).send_ctx.flush_ctx.list ≤ n
      → OnWire d reliable first start handed
          (thread_rounds d (suc n) (flush d now io)).channel_stream
  unfolding thread_rounds
  flush_then_rounds n now io c runs k async short =
      let io1 : Io d = flush d now io in
      let c1 = flush-Carries d reliable now io c in
      let k1 : Awake d io1 = flush-Awake d now io k in
      let started : io1.flush_thread ≢ not_started =
        flush-Runs d now io runs (flush-async d now io ∙ async) in
      let w = round_by io1.flush_thread io1.send_ctx.flush_ctx.list io1 refl refl started k1 in
      let r =
        rounds-Idle n (thread_round d io1) (round-Carries io1 c1) (round-Awake io1 k1) w.started
          w.idle (omega (arith, w.shorter)) in
      Carries-OnWire d reliable r.carries r.idle (
        subst (λ b. Holds b []) (sym (r.same_buffer ∙ w.same_buffer))
          (flush-Holds d reliable now io c))

  -- In a reachable state over a stream that takes every packet: while the main thread waits behind a
  -- flush, as every read that follows a send does, the flush thread of an asynchronous channel brings
  -- everything handed over onto the wire: a round for each packet queued by then, and one, is enough,
  -- whatever the thread was at. A thread that is asleep does nothing in its rounds until it is woken.
  pub flush-OnWire :
      (is_server : Bool) (start_time : ℕ) (s : State) (n now : ℕ) {handed : List ℕ} {io : Io d}
      → Reach d (new_io d is_server start_time s) handed io
      → io.send_ctx.async ≡ true
      → length (flush d now io).send_ctx.flush_ctx.list ≤ n
      → OnWire d reliable
          (new_send_ctx start_time).buffer
          (sent s)
          handed
          (thread_rounds d (suc n) (flush d now io)).channel_stream
  flush-OnWire is_server start_time s n now {io = io} r async short =
      flush_then_rounds n now io (Reach-Carries d reliable is_server start_time s r)
        (Reach-Runs is_server start_time s r) (Reach-Awake d reliable is_server start_time s r)
        async short
