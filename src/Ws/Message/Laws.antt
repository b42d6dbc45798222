-- ===== src/Ws/Message/Laws.antt =====
-- Receiving a stream of bytes: what the sender put into frames is what `RecvMessage` gives.
use zktls_bench.Prelude.{
  ℕ, zero, suc, ◌+◌, ◌-◌, ◌^◌, ◌<◌, ◌≤◌, ◌≡◌, refl, ap, sym, subst, ◌∙◌, true, false, none, List,
  [], ◌∷◌, ◌++◌, ◌==◌, length, take, drop, append_assoc, arith, concat, take_append_le,
  drop_append_le, take_append_ge, drop_append_ge, drop_all, take_all, length-append, length-take,
  All,
}
use native.Mathlib.Decide.{dec_lt}
use zktls_bench.Prelude.Bytes.{le, from_le-le}
use zktls_bench.Errors.{Outcome, ok}
use zktls_bench.Ws.SendBuffer.{add64}
use zktls_bench.Ws.SendBuffer.Laws.{frame, message, length-message}
use zktls_bench.Ws.Send.Progress.{frames}
use zktls_bench.Ws.Header.Laws.{header_bytes}
use zktls_bench.Ws.Channel.{Channel}
use zktls_bench.Ws.Recv.{
  RecvBuffer, RecvCtx, valid_info, put_to_recv_ctx, put_bytes_to_recv_ctx, as_recv_buffer,
}
use zktls_bench.Ws.Recv.Queue.{IsQueue, put_to_recv_ctx-IsQueue}
use zktls_bench.Ws.Recv.Reading.{
  Took, recv_from_recv_ctx-Took, empty_recv_ctx-IsQueue, nothing_listed, length-put_to_recv_ctx,
}
use zktls_bench.Ws.Message.{recv_frame, recv_ready, recv_message}
use zktls_bench.Ws.Message.Header.{FrameRead, recv_frame-header_bytes}

-- A payload that a frame can carry.
abbrev pub Sendable : List ℕ → Type 0
Sendable p = (0 < length p) × (length p < 2 ^ 62)

as_recv_buffer-message :
    (id : ℕ) (p : List ℕ)
    → id < 2 ^ 64
    → length p < 2 ^ 64
    → as_recv_buffer (message id p) ≡ ok (record { id = id; len = length p; payload = p })
unfolding as_recv_buffer message
as_recv_buffer-message id p h k = ground (arith, from_le-le 8 id h, from_le-le 8 (length p) k)

-- A message of the next id, put into an empty queue.
record Queued (ctx : RecvCtx) (id : ℕ) (p : List ℕ) : Type 0 where
  ctx' : RecvCtx
  result : put_bytes_to_recv_ctx ctx (message id p) ≡ ok ctx'
  queue : IsQueue ctx' id p
  one : length ctx'.list ≤ 1

put_message :
    (ctx : RecvCtx) (last : ℕ) (p : List ℕ)
    → IsQueue ctx last []
    → last + 1 < 2 ^ 64
    → Sendable p
    → Queued ctx (last + 1) p
unfolding put_bytes_to_recv_ctx
put_message ctx last p q b h =
    let c : RecvBuffer = record { id = last + 1; len = length p; payload = p } in
    record {
      ctx' = put_to_recv_ctx ctx c;
      result = rw (as_recv_buffer-message (last + 1) p b (omega (arith, h))) refl;
      queue = put_to_recv_ctx-IsQueue c q refl refl h.0 b;
      one = omega (arith, length-put_to_recv_ctx ctx c, nothing_listed ctx q);
    }

module _ (ch : Channel) where
  open ch use {State, recv_ex, pending}

  -- The state of a receiver: the queue holds `rest`, and the frames of `ps` are on their way, with
  -- `tail` behind them.
  pub record Receiving (ctx : RecvCtx) (s : State) (last : ℕ) (rest : List ℕ) (ps : List (List ℕ))
      (tail : List ℕ) : Type 0 where
    pub queue : IsQueue ctx last rest
    pub one : length ctx.list ≤ 1
    pub behind : pending s ≡ concat (frames last ps) ++ tail
    pub sendable : All Sendable ps
    pub small : last + length ps < 2 ^ 64

  -- A read of `n` bytes is complete, and the receiver goes on from there.
  pub record Received (outcome : Outcome (List ℕ × RecvCtx × State)) (got bytes : List ℕ) (n : ℕ)
      (tail : List ℕ) : Type 0 where
    pub ctx' : RecvCtx
    pub s' : State
    pub last' : ℕ
    pub rest' : List ℕ
    pub ps' : List (List ℕ)
    pub result : outcome ≡ ok (got ++ take n bytes, ctx', s')
    pub left : Receiving ctx' s' last' rest' ps' tail
    pub bytes_left : rest' ++ concat ps' ≡ drop n bytes

  -- The next frame, on an empty queue.
  record Next (ctx : RecvCtx) (s : State) (last : ℕ) (p : List ℕ) (ps : List (List ℕ))
      (tail : List ℕ) : Type 0 where
    ctx' : RecvCtx
    s' : State
    framed : recv_frame ch 8 s ≡ ok (message (last + 1) p, s')
    put : put_bytes_to_recv_ctx ctx (message (last + 1) p) ≡ ok ctx'
    left : Receiving ctx' s' (last + 1) p ps tail

  recv_frame-Next :
      (ctx : RecvCtx) (s : State) (last : ℕ) (p : List ℕ) (ps : List (List ℕ)) (tail : List ℕ)
      → Receiving ctx s last [] (p ∷ ps) tail
      → Next ctx s last p ps tail
  unfolding frame
  recv_frame-Next ctx s last p ps tail r =
      let id : ℕ = last + 1 in
      let id_eq : add64 last 1 ≡ id = omega (arith, r.small) in
      let body : List ℕ = message id p in
      let more : List ℕ = concat (frames id ps) ++ tail in
      let len : length body ≡ 16 + length p = length-message id p in
      let here : pending s ≡ header_bytes (length body) none ++ (body ++ more) =
        r.behind
        ∙ ap (λ i. (frame i p ++ concat (frames i ps)) ++ tail) id_eq
        ∙ append_assoc (frame id p) (concat (frames id ps)) tail
        ∙ append_assoc (header_bytes (16 + length p) none) body more
        ∙ ap (λ k. header_bytes k none ++ (body ++ more)) (sym len) in
      let read : FrameRead ch 8 body s more =
        recv_frame-header_bytes ch 8 none body s more tt (omega (arith, len, r.sendable.0)) tt
          here in
      let queued : Queued ctx id p =
        put_message ctx last p r.queue (omega (arith, r.small)) r.sendable.0 in
      record {
        ctx' = queued.ctx';
        s' = read.next;
        framed = read.result;
        put = queued.result;
        left = record {
          queue = queued.queue;
          one = queued.one;
          behind = read.behind;
          sendable = r.sendable.1;
          small = omega (arith, r.small);
        };
      }

  -- A context that holds nothing gives nothing.
  ready_nothing :
      (ctx : RecvCtx) {last : ℕ} (len : ℕ) (got : List ℕ)
      → IsQueue ctx last []
      → recv_ready ch ctx len got ≡ ok (false, got, ctx)
  unfolding recv_ready
  ready_nothing ctx len got q = rw (empty_recv_ctx-IsQueue ctx q).0 refl

  -- A context that holds something gives what a read takes.
  ready_something :
      (ctx : RecvCtx) {last : ℕ} {rest : List ℕ} (len : ℕ) (got : List ℕ) (n : ℕ)
      → (q : IsQueue ctx last rest) → 0 < length rest
      → len ≡ length got + n
      → (t : Took ctx n last rest)
      → recv_ready ch ctx len got
        ≡ ok (length (got ++ take t.count rest) == len, got ++ take t.count rest, t.ctx')
  unfolding recv_ready
  ready_something ctx {last} {rest} len got n q p e t =
      let valid : valid_info ctx.info ≡ true = (empty_recv_ctx-IsQueue ctx q).0 ∙ ground arith in
      let left : len - length got ≡ n = omega arith in rw (valid, left, t.result) refl

  module _ (fuel : ℕ) (len n : ℕ) (got tail : List ℕ) (ctx : RecvCtx) (s : State) (last : ℕ)
      (e : len ≡ length got + n) where
    complete :
        (rest : List ℕ) (ps : List (List ℕ))
        → Receiving ctx s last rest ps tail
        → 0 < n
        → n ≤ length rest
        → Received (recv_message ch (suc fuel) ctx len got s) got (rest ++ concat ps) n tail
    unfolding recv_message
    complete rest ps r p le =
        let t : Took ctx n last rest =
          recv_from_recv_ctx-Took ctx n r.queue (omega (arith, r.small)) p (omega arith) in
        let all : t.count ≡ n = omega (arith, t.one r.one) in
        let done : (length (got ++ take t.count rest) == len) ≡ true =
          let l : length (got ++ take t.count rest) ≡ len =
            omega (arith, length-append got (take t.count rest), length-take t.count rest) in
          ground arith in
        record {
          ctx' = t.ctx';
          s' = s;
          last' = last;
          rest' = drop t.count rest;
          ps' = ps;
          result =
              rw
                (
                  ready_something ctx len got n r.queue (omega arith) e t,
                  done,
                  all,
                  take_append_le n rest (concat ps) le,
                )
                refl;
          left = record {
            queue = t.left;
            one = (t.one r.one).1;
            behind = r.behind;
            sendable = r.sendable;
            small = r.small;
          };
          bytes_left = rw (all, drop_append_le n rest (concat ps) le) refl;
        }

    -- The read of a frame, by the reads that come after it.
    go_on :
        (p : List ℕ) (ps : List (List ℕ))
        → (x : Next ctx s last p ps tail)
        → Received (recv_message ch fuel x.ctx' len got x.s') got (p ++ concat ps) n tail
        → Receiving ctx s last [] (p ∷ ps) tail
        → Received (recv_message ch (suc fuel) ctx len got s) got (p ++ concat ps) n tail
    unfolding recv_message
    go_on p ps x more r = rw (ready_nothing ctx len got r.queue, x.framed, x.put) more

    module _ (rest : List ℕ) (p : List ℕ) (ps : List (List ℕ))
        (r : Receiving ctx s last rest (p ∷ ps) tail) (some_rest : 0 < length rest)
        (more : length rest < n) where
      drained : Took ctx n last rest
      drained =
          recv_from_recv_ctx-Took ctx n r.queue (omega (arith, r.small)) (omega arith) some_rest

      all_rest : drained.count ≡ length rest
      all_rest = omega (arith, drained.one r.one)

      nothing_left : Receiving drained.ctx' s last [] (p ∷ ps) tail
      nothing_left = record {
        queue =
            subst (IsQueue drained.ctx' last)
              (drop_all drained.count rest (omega (arith, all_rest))) drained.left;
        one = (drained.one r.one).1;
        behind = r.behind;
        sendable = r.sendable;
        small = r.small;
      }

      drain_on :
          (x : Next drained.ctx' s last p ps tail)
          → Received
              (recv_message ch fuel x.ctx' len (got ++ rest) x.s')
              (got ++ rest)
              (p ++ concat ps)
              (n - length rest)
              tail
          → Received
              (recv_message ch (suc fuel) ctx len got s)
              got
              (rest ++ (p ++ concat ps))
              n
              tail
      unfolding recv_message
      drain_on x y =
          let taken : take drained.count rest ≡ rest =
            take_all drained.count rest (omega (arith, all_rest)) in
          let not_done : (length (got ++ rest) == len) ≡ false =
            let l : length (got ++ rest) < len = omega (arith, length-append got rest) in
            ground arith in
          record {
            ctx' = y.ctx';
            s' = y.s';
            last' = y.last';
            rest' = y.rest';
            ps' = y.ps';
            result =
                rw
                  (
                    ready_something ctx len got n r.queue some_rest e drained,
                    taken,
                    not_done,
                    x.framed,
                    x.put,
                    y.result,
                    take_append_ge n rest (p ++ concat ps) (omega arith),
                    append_assoc got rest (take (n - length rest) (p ++ concat ps)),
                  )
                  refl;
            left = y.left;
            bytes_left = y.bytes_left ∙ sym (drop_append_ge n rest (p ++ concat ps) (omega arith));
          }

  -- `RecvMessage(ctx, buf, len, stream)` with `n` of the `len` bytes still to be read, `n` not zero:
  -- if the queue and the frames on their way carry that many, then with fuel for each frame and one
  -- it returns, with those bytes in the order of the stream behind the bytes it had; the bytes after
  -- them are still in the queue and on their way, and what is behind the frames was not touched.
  pub recv_message-Received :
      (fuel : ℕ) (ctx : RecvCtx) (s : State) (last : ℕ) (rest : List ℕ) (ps : List (List ℕ))
      (tail : List ℕ) (got : List ℕ) (len n : ℕ)
      → Receiving ctx s last rest ps tail
      → length ps < fuel
      → 0 < n
      → n ≤ length (rest ++ concat ps)
      → len ≡ length got + n
      → Received (recv_message ch fuel ctx len got s) got (rest ++ concat ps) n tail
  recv_message-Received zero ctx s last rest ps tail got len n r f p h e = absurd (omega arith)
  recv_message-Received (suc fuel) ctx s last [] [] tail got len n r f p h e = absurd (omega arith)
  recv_message-Received (suc fuel) ctx s last [] (q ∷ ps) tail got len n r f p h e =
      let x : Next ctx s last q ps tail = recv_frame-Next ctx s last q ps tail r in
      go_on fuel len n got tail ctx s last e q ps x
        (recv_message-Received fuel x.ctx' x.s' (last + 1) q ps tail got len n x.left (omega arith)
          p h e)
        r
  recv_message-Received (suc fuel) ctx s last (b ∷ rest) [] tail got len n r f p h e =
      complete fuel len n got tail ctx s last e (b ∷ rest) [] r p
        (omega (arith, length-append (b ∷ rest) []))
  recv_message-Received (suc fuel) ctx s last (b ∷ rest) (q ∷ ps) tail got len n r f p h e =
      elim (dec_lt (length (b ∷ rest)) n) [
        | no le ↦ complete fuel len n got tail ctx s last e (b ∷ rest) (q ∷ ps) r p (omega arith)
        | yes more ↦
            let held : List ℕ = b ∷ rest in
            let empty =
              nothing_left fuel len n got tail ctx s last e held q ps r (omega arith) more in
            let now : RecvCtx =
              (drained fuel len n got tail ctx s last e held q ps r (omega arith) more).ctx' in
            let x : Next now s last q ps tail = recv_frame-Next now s last q ps tail empty in
            drain_on fuel len n got tail ctx s last e held q ps r (omega arith) more x (
              recv_message-Received fuel x.ctx' x.s' (last + 1) q ps tail (got ++ held) len
                (n - length held) x.left (omega arith) (omega arith)
                (omega (arith, length-append held (q ++ concat ps)))
                (omega (arith, length-append got held)))
      ]
