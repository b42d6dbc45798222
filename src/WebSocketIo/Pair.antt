-- ===== src/WebSocketIo/Pair.antt =====
-- Two channels: what one hands over the other reads, as from one queue of bytes.
use zktls_bench.Prelude.{
  ℕ, ◌+◌, ◌-◌, ◌^◌, ◌<◌, ◌≤◌, ◌≡◌, ◌≢◌, refl, sym, ap, subst, ◌∙◌, Bool, true, List, [], ◌∷◌, ◌++◌,
  length, take, drop, length-append, length-drop, arith, All, concat,
}
use mathlib.Core.Path.{subst₂}
use zktls_bench.Errors.{Outcome, ok, ◌>>=◌, ok-injective}
use zktls_bench.Ws.SendBuffer.{new_send_buffer}
use zktls_bench.Ws.Send.{new_send_ctx}
use zktls_bench.Ws.Send.Progress.{frames}
use zktls_bench.Ws.Recv.{RecvCtx}
use zktls_bench.Ws.Recv.Queue.{IsQueue, new_recv_ctx-IsQueue}
use zktls_bench.Ws.Message.Laws.{Receiving, Sendable, recv_message-Received}
use zktls_bench.WebSocketIo.{
  Duplex, Io, new_io, receiver, hand_over, send_data_internal, flush, flush_sent,
  recv_data_internal, after_read, close,
}
use zktls_bench.WebSocketIo.Fields.{send_message-Kept}
use zktls_bench.WebSocketIo.Stop.{OnWire, close-Delivered}
use zktls_bench.WebSocketIo.Reachable.{Reach, Reach-Carries}

-- The calls of a channel's owner.
pub data Call : Type 0 where
  send_data : List ℕ → Call
  recv_data : ℕ → Call

-- The abstract channel is the queue of the bytes that are to be read: a read takes its bytes off the
-- front, and sends go the other way.
pub replay : List Call → List ℕ → List (List ℕ)
replay [] queue = []
replay (send_data bytes ∷ calls) queue = replay calls queue
replay (recv_data n ∷ calls) queue = take n queue ∷ replay calls (drop n queue)

-- Each read asks for something, and the queue has enough for all.
abbrev pub Fits : List Call → ℕ → Type 0
Fits [] n = Unit
Fits (send_data bytes ∷ calls) n = Fits calls n
Fits (recv_data k ∷ calls) n = (0 < k) × (k ≤ n) × Fits calls (n - k)

count-le : (ps : List (List ℕ)) → All (λ p. p ≢ []) ps → length ps ≤ length (concat ps)
count-le [] h = omega arith
count-le ([] ∷ ps) h = absurd (h.0 refl)
count-le ((x ∷ p) ∷ ps) h = omega (arith, count-le ps h.1, length-append p (concat ps))

All-Sendable :
    (ps : List (List ℕ)) → All (λ p. p ≢ []) ps → length (concat ps) < 2 ^ 62 → All Sendable ps
All-Sendable [] h small = tt
All-Sendable ([] ∷ ps) h small = absurd (h.0 refl)
All-Sendable ((x ∷ p) ∷ ps) h small =
    let l = length-append p (concat ps) in
    ((omega arith, omega (arith, l)), All-Sendable ps h.1 (omega (arith, l)))

Sendable-count : (ps : List (List ℕ)) → All Sendable ps → length ps ≤ length (concat ps)
Sendable-count [] h = omega arith
Sendable-count (p ∷ ps) h = omega (arith, h.0, Sendable-count ps h.1, length-append p (concat ps))

module _ (d : Duplex) where
  open d use {State, sent, pending, flush_stream-pending}

  -- The calls in order, with what the reads return.
  unfoldable pub run : ℕ → ℕ → List Call → Io d → Outcome (List (List ℕ) × Io d)
  run fuel now [] io = ok ([], io)
  run fuel now (send_data bytes ∷ calls) io = run fuel now calls (send_data_internal d bytes now io)
  run fuel now (recv_data n ∷ calls) io = do
    (bytes, io') ← recv_data_internal d fuel n now io
    (more, io'') ← run fuel now calls io'
    ok (bytes ∷ more, io'')

  -- The channel refines the queue `content`.
  pub record Reads (content tail : List ℕ) (io : Io d) : Type 0 where
    pub last : ℕ
    pub rest : List ℕ
    pub ps : List (List ℕ)
    pub receiving : Receiving (receiver d) io.recv_ctx io.channel_stream last rest ps tail
    pub holds : rest ++ concat ps ≡ content

  pub record SameInput (io io' : Io d) : Type 0 where
    pub same_ctx : io'.recv_ctx ≡ io.recv_ctx
    pub same_pending : pending io'.channel_stream ≡ pending io.channel_stream

  pub Reads-same :
      {content tail : List ℕ} {io io' : Io d}
      → SameInput io io'
      → Reads content tail io
      → Reads content tail io'
  Reads-same {io = io} {io'} e r = record {
    last = r.last;
    rest = r.rest;
    ps = r.ps;
    receiving = record {
      queue = subst (λ c. IsQueue c r.last r.rest) (sym e.same_ctx) r.receiving.queue;
      one = subst (λ (c : RecvCtx). length c.list ≤ 1) (sym e.same_ctx) r.receiving.one;
      behind = e.same_pending ∙ r.receiving.behind;
      sendable = r.receiving.sendable;
      small = r.receiving.small;
    };
    holds = r.holds;
  }

  hand_over-SameInput :
      (bytes : List ℕ) (now : ℕ) (io : Io d) → SameInput io (hand_over d bytes now io)
  unfolding hand_over
  hand_over-SameInput bytes now io =
      ground (arith, send_message-Kept d io.send_ctx bytes now io.channel_stream)

  pub send_data_internal-SameInput :
      (bytes : List ℕ) (now : ℕ) (io : Io d) → SameInput io (send_data_internal d bytes now io)
  unfolding send_data_internal
  send_data_internal-SameInput bytes now io = ground (arith, hand_over-SameInput bytes now io)

  pub flush-SameInput : (now : ℕ) (io : Io d) → SameInput io (flush d now io)
  unfolding flush
  flush-SameInput now io =
      let io' : Io d = send_data_internal d [] now io in
      ground
        (arith, send_data_internal-SameInput [] now io, flush_stream-pending io'.channel_stream)

  flush_sent-SameInput : (now : ℕ) (io : Io d) → SameInput io (flush_sent d now io)
  unfolding flush_sent
  flush_sent-SameInput now io = ground (arith, flush-SameInput now io)

  pub recv_data_internal-Reads :
      {content tail : List ℕ} (fuel n now : ℕ) (io : Io d)
      → Reads content tail io
      → 0 < n
      → n ≤ length content
      → length content < fuel
      → (io' : Io d) × (recv_data_internal d fuel n now io ≡ ok (take n content, io'))
        × Reads (drop n content) tail io'
  unfolding recv_data_internal after_read
  recv_data_internal-Reads {content} {tail} fuel n now io r some_bytes enough more =
      let io1 : Io d = flush_sent d now io in
      let r1 = Reads-same (flush_sent-SameInput now io) r in
      let total : length content ≡ length r1.rest + length (concat r1.ps) =
        sym (ap length r1.holds) ∙ length-append r1.rest (concat r1.ps) in
      let got =
        recv_message-Received (receiver d) fuel io1.recv_ctx io1.channel_stream r1.last r1.rest
          r1.ps tail [] n n r1.receiving
          (omega (arith, total, Sendable-count r1.ps r1.receiving.sendable)) some_bytes
          (omega (arith, total, length-append r1.rest (concat r1.ps))) (omega arith) in
      (
        record io1 { recv_ctx = got.ctx'; channel_stream = got.s' },
        rw got.result (
            ap
              (λ (l : List ℕ).
                ok (take n l, record io1 { recv_ctx = got.ctx'; channel_stream = got.s' }))
              r1.holds),
        record {
          last = got.last';
          rest = got.rest';
          ps = got.ps';
          receiving = got.left;
          holds = got.bytes_left ∙ ap (drop n) r1.holds;
        },
      )

  -- A channel that refines a queue with enough bytes answers any sequence of calls as the queue does:
  -- every read returns, with fuel for each byte of the queue and one, and gives the next bytes,
  -- whatever is sent in between.
  pub run-replay :
      {content tail : List ℕ} (fuel now : ℕ) (calls : List Call) (io : Io d)
      → Reads content tail io
      → Fits calls (length content)
      → length content < fuel
      → (io' : Io d) × (run fuel now calls io ≡ ok (replay calls content, io'))
  unfolding run replay
  run-replay fuel now [] io r h more = (io, refl)
  run-replay fuel now (send_data bytes ∷ calls) io r h more =
      run-replay fuel now calls (send_data_internal d bytes now io)
        (Reads-same (send_data_internal-SameInput bytes now io) r) h more
  run-replay {content} {tail} fuel now (recv_data n ∷ calls) io r h more =
      let (io1, result, r1) = recv_data_internal-Reads fuel n now io r h.0 h.1 more in
      let left : length (drop n content) ≡ length content - n = length-drop n content in
      let (io2, rest) =
        run-replay fuel now calls io1 r1 (subst (Fits calls) (sym left) h.2)
          (omega (arith, left)) in
      (io2, rw (result, rest) refl)

  pub new_io-Reads :
      (is_server : Bool) (now : ℕ) (s : State) (ps : List (List ℕ)) (tail : List ℕ)
      → pending s ≡ concat (frames 0 ps) ++ tail
      → All (λ p. p ≢ []) ps
      → length (concat ps) < 2 ^ 62
      → Reads (concat ps) tail (new_io d is_server now s)
  new_io-Reads is_server now s ps tail wire nonempty small = record {
    last = 0;
    rest = [];
    ps = ps;
    receiving = record {
      queue = new_recv_ctx-IsQueue;
      one = omega arith;
      behind = wire;
      sendable = All-Sendable ps nonempty small;
      small = omega (arith, count-le ps nonempty);
    };
    holds = refl;
  }

module _ (d e : Duplex) (reliable : (p : List ℕ) (s : d.State) → (d.send_ex p s).0 ≡ true) where
  -- What is on the wire of one channel, read by the other.
  wire_refines :
      (start_time : ℕ) (s : d.State) {handed : List ℕ} (is_server : Bool) (now fuel : ℕ)
      (t : e.State) (tail : List ℕ) (calls : List Call)
      → OnWire d reliable (new_send_ctx start_time).buffer [] handed s
      → e.pending t ≡ concat (d.sent s) ++ tail
      → length handed < 2 ^ 62
      → Fits calls (length handed)
      → length handed < fuel
      → (io' : Io e) × (run e fuel now calls (new_io e is_server now t)
          ≡ ok (replay calls handed, io'))
  unfolding new_send_ctx new_send_buffer
  wire_refines start_time s {handed} is_server now fuel t tail calls w wire small fits more =
      let whole : length (concat w.payloads) ≡ length handed = ap length w.all_bytes in
      let r : Reads e (concat w.payloads) tail (new_io e is_server now t) =
        new_io-Reads e is_server now t w.payloads tail (wire ∙ ap (λ l. concat l ++ tail) w.packets)
          w.nonempty (omega (arith, whole)) in
      run-replay e fuel now calls (new_io e is_server now t)
        (subst (λ l. Reads e l tail (new_io e is_server now t)) w.all_bytes r) fits more

  -- Two channels, the first over a stream that takes every packet. After any steps of the first and of
  -- its flush thread that hand over `handed`, and its destructor, with fuel for each queued packet and
  -- one: when what it sent is what the second will receive, any sequence of calls of the second, a new
  -- channel, whose reads each ask for something and together for no more than `handed`, returns as on
  -- a queue of the bytes `handed`, fewer than 2^62: each read gives the next of them, in order, whatever
  -- is sent in between, with fuel for each byte and one.
  pub pair_refines :
      (is_server : Bool) (start_time : ℕ) (s : d.State) {handed : List ℕ} {io closed : Io d}
      (close_fuel now : ℕ) (is_server' : Bool) (now' fuel : ℕ) (t : e.State) (tail : List ℕ)
      (calls : List Call)
      → d.sent s ≡ []
      → Reach d (new_io d is_server start_time s) handed io
      → length io.send_ctx.flush_ctx.list < close_fuel
      → close d close_fuel now io ≡ ok closed
      → e.pending t ≡ concat (d.sent closed.channel_stream) ++ tail
      → length handed < 2 ^ 62
      → Fits calls (length handed)
      → length handed < fuel
      → (io' : Io e) × (run e fuel now' calls (new_io e is_server' now' t)
          ≡ ok (replay calls handed, io'))
  pair_refines is_server start_time s {handed} {io} {closed} close_fuel now is_server' now' fuel t
        tail calls fresh r short ended wire small fits more =
      let (io1, result, done) =
        close-Delivered d reliable close_fuel now io
          (Reach-Carries d reliable is_server start_time s r) short in
      let same : io1.channel_stream ≡ closed.channel_stream =
        ap (λ (x : Io d). x.channel_stream) (ok-injective (sym result ∙ ended)) in
      wire_refines start_time closed.channel_stream is_server' now' fuel t tail calls
        (subst₂ (λ l x. OnWire d reliable (new_send_ctx start_time).buffer l handed x) fresh same
          done.wire)
        wire small fits more
