-- ===== src/WebSocketIo/Sync.antt =====
-- `sync`: the two sides exchange a byte.
use zktls_bench.Prelude.{
  ℕ, ◌<◌, ◌≡◌, sym, ap, subst, ◌∙◌, refl, true, false, Bool-cases, inl, inr, if_true, if_false,
  if◌then◌else◌, List, [], ◌∷◌, ◌++◌, length, arith,
}
use zktls_bench.Errors.{Outcome, ok, ◌>>=◌}
use zktls_bench.Ws.SendBuffer.{SendBuffer}
use zktls_bench.Ws.SendBuffer.Laws.{Holds}
use zktls_bench.WebSocketIo.{Duplex, Io, send_data_internal, flush, flush_sent, sync}
use zktls_bench.WebSocketIo.Stop.{flush-Holds}
use zktls_bench.WebSocketIo.Reads.{recv_data_internal-ReadFrom}
use zktls_bench.WebSocketIo.Steps.{Carries, send_data_internal-Carries, flush-Carries, Carries-read}
use zktls_bench.WebSocketIo.Pair.{
  Reads, Reads-same, send_data_internal-SameInput, flush-SameInput, recv_data_internal-Reads,
}

module _ (d : Duplex) (reliable : (p : List ℕ) (s : d.State) → (d.send_ex p s).0 ≡ true) where
  module _ {first : SendBuffer} {start : List (List ℕ)} {handed : List ℕ} {b : ℕ}
      {more tail : List ℕ} where
    -- On a channel that has a byte to read, over a stream that takes every packet: `sync` returns, with
    -- fuel for each byte to read and one. It has read that byte, and has handed over one byte: 0 on
    -- the server's side, the byte read on the client's. Its send buffer is empty, so that everything
    -- handed over is sent or, on an asynchronous channel, at least queued for the flush thread.
    pub sync_lem :
        (fuel now : ℕ) (io : Io d)
        → Carries d first start handed io
        → Reads d (b ∷ more) tail io
        → length (b ∷ more) < fuel
        → (io' : Io d) × (sync d fuel now io ≡ ok io')
          × Carries d first start (handed ++ ((if io.is_server then 0 else b) ∷ [])) io'
          × Reads d more tail io'
          × Holds io'.send_ctx.buffer []
    unfolding sync send_data_internal flush_sent
    sync_lem fuel now io c r enough = elim (Bool-cases io.is_server) [
      | inl server ↦
          let io1 : Io d = send_data_internal d (0 ∷ []) now io in
          let c1 = send_data_internal-Carries d reliable (0 ∷ []) now io (omega arith) c in
          let r1 = Reads-same d (send_data_internal-SameInput d (0 ∷ []) now io) r in
          let (io2, result, r2) =
            recv_data_internal-Reads d fuel 1 now io1 r1 (omega arith) (omega arith) enough in
          let read = recv_data_internal-ReadFrom d fuel 1 now io1 result in
          let c2 = Carries-read d reliable read c1 in
          let flushed : Io d = record (flush d now io1) { has_sent = false } in
          let cleared : flushed ≡ flush_sent d now io1 = sym (if_true flushed refl) in
          let buffered : Holds (flush_sent d now io1).send_ctx.buffer [] =
            subst (λ (x : Io d). Holds x.send_ctx.buffer []) cleared
              (flush-Holds d reliable now io1 c1) in
          (
            io2,
            if_true _ server
                ∙ ap (λ (x : Outcome (List ℕ × Io d)). x >>= (λ (p : List ℕ × Io d). ok p.1))
                    result,
            subst (λ k. Carries d first start (handed ++ (k ∷ [])) io2) (sym (if_true b server)) c2,
            r2,
            subst (λ (x : Io d). Holds x.send_ctx.buffer []) (sym read.left) buffered,
          )
      | inr client ↦
          let (io1, result, r1) =
            recv_data_internal-Reads d fuel 1 now io r (omega arith) (omega arith) enough in
          let c1 = Carries-read d reliable (recv_data_internal-ReadFrom d fuel 1 now io result) c in
          let io2 : Io d = send_data_internal d (b ∷ []) now io1 in
          let c2 = send_data_internal-Carries d reliable (b ∷ []) now io1 (omega arith) c1 in
          let r2 = Reads-same d (send_data_internal-SameInput d (b ∷ []) now io1) r1 in
          (
            flush d now io2,
            if_false _ client
                ∙ ap
                    (λ (x : Outcome (List ℕ × Io d)). x >>= (λ (p : List ℕ × Io d).
                      ok (flush d now (send_data_internal d p.0 now p.1))))
                    result,
            subst (λ k. Carries d first start (handed ++ (k ∷ [])) (flush d now io2))
                (sym (if_false 0 client)) (flush-Carries d reliable now io2 c2),
            Reads-same d (flush-SameInput d now io2) r2,
            flush-Holds d reliable now io2 c2,
          )
    ]
