-- ===== src/WebSocketIo/Reachable.antt =====
-- Every state that the steps of a channel and of its flush thread can reach.
use zktls_bench.Prelude.{
  ℕ, ◌^◌, ◌<◌, ◌≡◌, refl, sym, subst, Bool, true, List, [], ◌++◌, append-nil, length, arith, none,
}
use zktls_bench.Errors.{ok}
use zktls_bench.Ws.SendBuffer.{SendBuffer, new_send_buffer}
use zktls_bench.Ws.SendBuffer.Laws.{new-Holds}
use zktls_bench.Ws.Send.{new_send_ctx}
use zktls_bench.Ws.FlushCtx.{new_flush_ctx}
use zktls_bench.Ws.Send.Progress.{Progress, Progress-stay}
use zktls_bench.WebSocketIo.{
  Duplex, Io, new_io, send_data_internal, flush, recv_data_internal, start_async_flush, take_packet,
  send_packet, stop_async_flush,
}
use zktls_bench.WebSocketIo.Steps.{
  Carries, send_data_internal-Carries, flush-Carries, start_async_flush-Carries,
  take_packet-Carries, send_packet-Carries, Carries-read,
}
use zktls_bench.WebSocketIo.Stop.{stop_async_flush-Carries}
use zktls_bench.WebSocketIo.Reads.{recv_data_internal-ReadFrom}

module _ (d : Duplex) where
  -- One step, of the main thread or of the flush thread, with the bytes that it hands over.
  pub data Step : Io d → List ℕ → Io d → Type 0 where
    send_data :
        (bytes : List ℕ) (now : ℕ) (io : Io d)
        → length bytes < 2 ^ 62
        → Step io bytes (send_data_internal d bytes now io)
    flush_data : (now : ℕ) (io : Io d) → Step io [] (flush d now io)
    recv_data :
        (fuel len now : ℕ) {io : Io d} {bytes : List ℕ} {io' : Io d}
        → recv_data_internal d fuel len now io ≡ ok (bytes, io')
        → Step io [] io'
    thread_starts : (now : ℕ) (io : Io d) → Step io [] (start_async_flush d now io)
    thread_takes : (io : Io d) → Step io [] (take_packet d io)
    thread_sends : (io : Io d) → Step io [] (send_packet d io)
    thread_stops :
        (fuel now : ℕ) {io io' : Io d}
        → length io.send_ctx.flush_ctx.list < fuel
        → stop_async_flush d fuel now io ≡ ok io'
        → Step io [] io'

  -- Steps from a state, with all bytes that they handed over.
  pub data Reach (first : Io d) : List ℕ → Io d → Type 0 where
    here : Reach first [] first
    next :
        {handed bytes : List ℕ} {io io' : Io d}
        → Reach first handed io
        → Step io bytes io'
        → Reach first (handed ++ bytes) io'

module _ (d : Duplex) (reliable : (p : List ℕ) (s : d.State) → (d.send_ex p s).0 ≡ true) where
  module _ {first : SendBuffer} {start : List (List ℕ)} where
    still :
        {handed : List ℕ} {io : Io d}
        → Carries d first start handed io
        → Carries d first start (handed ++ []) io
    still {handed} {io} c = subst (λ l. Carries d first start l io) (sym (append-nil handed)) c

    Step-Carries :
        {handed bytes : List ℕ} {io io' : Io d}
        → Step d io bytes io'
        → Carries d first start handed io
        → Carries d first start (handed ++ bytes) io'
    Step-Carries (send_data bytes now io small) c =
        send_data_internal-Carries d reliable bytes now io small c
    Step-Carries {handed} (flush_data now io) c = still (flush-Carries d reliable now io c)
    Step-Carries {handed} (recv_data fuel len now {io} h) c =
        still (Carries-read d reliable (recv_data_internal-ReadFrom d fuel len now io h) c)
    Step-Carries (thread_starts now io) c = still (start_async_flush-Carries d reliable now io c)
    Step-Carries (thread_takes io) c = still (take_packet-Carries d reliable io c)
    Step-Carries (thread_sends io) c = still (send_packet-Carries d reliable io c)
    Step-Carries (thread_stops fuel now {io} short h) c =
        still (stop_async_flush-Carries d reliable fuel now io c short h)

  new_io-Carries :
      (is_server : Bool) (now : ℕ) (s : d.State)
      → Carries d (new_send_ctx now).buffer (d.sent s) [] (new_io d is_server now s)
  unfolding new_send_ctx new_flush_ctx new_send_buffer
  new_io-Carries is_server now s = record {
    progress =
        subst (Progress (new_send_ctx now).buffer (new_send_ctx now).buffer [] [] (d.sent s))
          (sym (append-nil (d.sent s))) (Progress-stay (d.sent s) (new-Holds 32768 none now));
    direct = λ h. refl;
    size = omega arith;
  }

  -- From a new channel over a stream that takes every packet, whatever the main thread and the flush
  -- thread do and in whatever order: the packets sent, the packet that the thread is sending and those
  -- queued, in this order, are frames with the ids 1, 2, ... of payloads that are not empty; the
  -- payloads and then the bytes in the send buffer are all bytes handed over, in order; and while the
  -- channel is not asynchronous nothing waits for the thread.
  pub Reach-Carries :
      (is_server : Bool) (now : ℕ) (s : d.State) {handed : List ℕ} {io : Io d}
      → Reach d (new_io d is_server now s) handed io
      → Carries d (new_send_ctx now).buffer (d.sent s) handed io
  Reach-Carries is_server now s here = new_io-Carries is_server now s
  Reach-Carries is_server now s (next r st) = Step-Carries st (Reach-Carries is_server now s r)
