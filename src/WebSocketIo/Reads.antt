-- ===== src/WebSocketIo/Reads.antt =====
-- A read leaves what was sent as it is.
use zktls_bench.Prelude.{ℕ, zero, suc, ◌≡◌, ◌∙◌, Bool, true, false, List, [], arith}
use zktls_bench.Errors.{ok, ◌>>=◌, ok_of_bind}
use zktls_bench.Ws.Recv.{RecvCtx, put_bytes_to_recv_ctx}
use zktls_bench.Ws.Message.{
  Announced, extra_size, recv_message_header, recv_payload, recv_frame, recv_ready, recv_message,
}
use zktls_bench.WebSocketIo.{Duplex, Io, receiver, recv_data_internal, flush_sent, after_read}

module _ (d : Duplex) where
  open d use {State, sent, recv_ex, recv_ex-sent}

  recv_message_header-sent :
      (s : State) {a : Announced} {s' : State}
      → recv_message_header (receiver d) s ≡ ok (a, s')
      → sent s' ≡ sent s
  unfolding recv_message_header
  recv_message_header-sent s h =
      ground (arith, recv_ex-sent 2 s, recv_ex-sent (extra_size (recv_ex 2 s).0) (recv_ex 2 s).1)

  recv_payload-sent :
      (node : ℕ) (a : Announced) (s : State) {p : List ℕ} {s' : State}
      → recv_payload (receiver d) node a s ≡ ok (p, s')
      → sent s' ≡ sent s
  unfolding recv_payload
  recv_payload-sent node a s h = ground (arith, recv_ex-sent a.data_len s)

  recv_frame-sent :
      (node : ℕ) (s : State) {p : List ℕ} {s' : State}
      → recv_frame (receiver d) node s ≡ ok (p, s')
      → sent s' ≡ sent s
  unfolding recv_frame
  recv_frame-sent node s h =
      let (r, e, f) = ok_of_bind (recv_message_header (receiver d) s) _ h in
      recv_payload-sent node r.0 r.1 f ∙ recv_message_header-sent s e

  pub recv_message-sent :
      (fuel : ℕ) (ctx : RecvCtx) (len : ℕ) (got : List ℕ) (s : State) {p : List ℕ} {ctx' : RecvCtx}
      {s' : State}
      → recv_message (receiver d) fuel ctx len got s ≡ ok (p, ctx', s')
      → sent s' ≡ sent s
  unfolding recv_message
  recv_message-sent zero ctx len got s h = absurd (ground (arith, h))
  recv_message-sent (suc fuel) ctx len got s h =
      let (r, e, f) = ok_of_bind (recv_ready (receiver d) ctx len got) _ h in
      go (λ c g s1 r f. recv_message-sent fuel c len g s1 f) r.0 r.1 r.2 f
    where
      go :
          ((c : RecvCtx) (g : List ℕ) (s1 : State) (r : List ℕ × RecvCtx × State)
            → recv_message (receiver d) fuel c len g s1 ≡ ok r
            → sent r.2 ≡ sent s1)
          → (done : Bool) (got' : List ℕ) (c : RecvCtx) {p : List ℕ} {ctx' : RecvCtx} {s' : State}
          → (elim done [
            | true ↦ ok (got', c, s)
            | false ↦ do
              (payload, s1) ← recv_frame (receiver d) 8 s
              c' ← put_bytes_to_recv_ctx c payload
              recv_message (receiver d) fuel c' len got' s1
          ])
            ≡ ok (p, ctx', s')
          → sent s' ≡ sent s
      go ih true got' c h = cc
      go ih false got' c h =
          let (q, e, f) = ok_of_bind (recv_frame (receiver d) 8 s) _ h in
          let (c', e', f') = ok_of_bind (put_bytes_to_recv_ctx c q.0) _ f in
          ih c' got' q.1 _ f' ∙ recv_frame-sent 8 s e

  -- What a read that returned has done: the flush before it, and a `recv_message`.
  pub record ReadFrom (fuel len now : ℕ) (io : Io d) (bytes : List ℕ) (io' : Io d) : Type 0 where
    pub ctx : RecvCtx
    pub s : State
    pub same_sent : sent s ≡ sent (flush_sent d now io).channel_stream
    pub left : io' ≡ record (flush_sent d now io) { recv_ctx = ctx; channel_stream = s }

  pub recv_data_internal-ReadFrom :
      (fuel len now : ℕ) (io : Io d) {bytes : List ℕ} {io' : Io d}
      → recv_data_internal d fuel len now io ≡ ok (bytes, io')
      → ReadFrom fuel len now io bytes io'
  unfolding recv_data_internal after_read
  recv_data_internal-ReadFrom fuel len now io h =
      let before = flush_sent d now io in
      let (r, e, f) =
        ok_of_bind (recv_message (receiver d) fuel before.recv_ctx len [] before.channel_stream) _
          h in
      record {
        ctx = r.1;
        s = r.2;
        same_sent = recv_message-sent fuel before.recv_ctx len [] before.channel_stream e;
        left = cc;
      }
