-- ===== src/Tests/Channels.antt =====
-- Runs of the theorems on channels with a flush thread.
use zktls_bench.Prelude.{
  ℕ, ◌<◌, ◌≡◌, ◌≤◌, refl, sym, append-nil, true, false, List, [], ◌∷◌, ◌++◌, length, take, drop,
  concat, length-take, arith,
}
use zktls_bench.Errors.{client_to_pado, ok}
use zktls_bench.Ws.Send.{new_send_ctx, send_message, send_rest, async_send_message, queue_buffer}
use zktls_bench.Ws.Send.Progress.{frames}
use zktls_bench.Ws.FlushCtx.{new_flush_ctx, put_to_flush_ctx}
use zktls_bench.Ws.SendBuffer.{new_send_buffer, empty, can_put, put}
use zktls_bench.Ws.SendBuffer.Laws.{Holds}
use zktls_bench.WebSocketIo.{
  Duplex, Io, new_io, send_data_internal, hand_over, flush, start_async_flush, close, sync,
}
use zktls_bench.WebSocketIo.Steps.{Carries}
use zktls_bench.WebSocketIo.Stop.{OnWire, Delivered, close-Delivered}
use zktls_bench.WebSocketIo.Reachable.{
  Reach, here, next, send_data as hand, thread_starts, Reach-Carries,
}
use zktls_bench.WebSocketIo.Pair.{
  Call, send_data, recv_data, run, replay, Reads, new_io-Reads, pair_refines,
}
use zktls_bench.WebSocketIo.Sync.{sync_lem}
use zktls_bench.WebSocketIo.Live.{thread_rounds, flush-OnWire}

-- A stream that takes every packet, and delivers a list of bytes.
abbrev memory_duplex : Duplex
memory_duplex = record {
  State = List (List ℕ) × List ℕ;
  connection_type = client_to_pado;
  send_ex = λ p s. (true, (s.0 ++ (p ∷ []), s.1));
  flush_stream = λ s. s;
  sent = λ s. s.0;
  recv_ex = λ n s. (take n s.1, (s.0, drop n s.1));
  pending = λ s. s.1;
  send_ex-sent = λ p s h. refl;
  send_ex-pending = λ p s. refl;
  flush_stream-sent = λ s. refl;
  flush_stream-pending = λ s. refl;
  recv_ex-sent = λ n s. refl;
  recv_ex-full = λ n s h. (refl, refl);
  recv_ex-short = λ n s h. omega (arith, length-take n s.1);
}

abbrev fresh : Io memory_duplex
fresh = new_io memory_duplex true 7 ([], [])

abbrev running : Io memory_duplex
running = start_async_flush memory_duplex 7 fresh

abbrev handed_over : Io memory_duplex
handed_over = send_data_internal memory_duplex (1 ∷ 2 ∷ 3 ∷ []) 7 running

steps : Reach memory_duplex fresh (1 ∷ 2 ∷ 3 ∷ []) handed_over
steps = next (next here (thread_starts 7 fresh)) (hand (1 ∷ 2 ∷ 3 ∷ []) 7 running (omega arith))

Reach-Carries_example :
    Carries memory_duplex (new_send_ctx 7).buffer [] (1 ∷ 2 ∷ 3 ∷ []) handed_over
Reach-Carries_example = Reach-Carries memory_duplex (λ p s. refl) true 7 ([], []) steps

nothing_queued : length handed_over.send_ctx.flush_ctx.list < 1
unfolding send_data_internal start_async_flush hand_over flush send_message send_rest
    async_send_message new_send_ctx new_flush_ctx new_send_buffer empty can_put put
nothing_queued = omega arith

close-Delivered_example :
    (io' : Io memory_duplex) × (close memory_duplex 1 7 handed_over ≡ ok io')
    × Delivered memory_duplex (λ p s. refl) (new_send_ctx 7).buffer [] (1 ∷ 2 ∷ 3 ∷ []) io'
close-Delivered_example =
    close-Delivered memory_duplex (λ p s. refl) 1 7 handed_over Reach-Carries_example nothing_queued

is_async : handed_over.send_ctx.async ≡ true
unfolding send_data_internal start_async_flush hand_over flush send_message send_rest
    async_send_message new_send_ctx new_flush_ctx new_send_buffer empty can_put put
is_async = refl

one_queued : length (flush memory_duplex 7 handed_over).send_ctx.flush_ctx.list ≤ 1
unfolding send_data_internal start_async_flush hand_over flush send_message send_rest
    async_send_message queue_buffer put_to_flush_ctx new_send_ctx new_flush_ctx new_send_buffer
    empty can_put put
one_queued = omega arith

flush-OnWire_example :
    OnWire memory_duplex
      (λ p s. refl)
      (new_send_ctx 7).buffer
      []
      (1 ∷ 2 ∷ 3 ∷ [])
      (thread_rounds memory_duplex 2 (flush memory_duplex 7 handed_over)).channel_stream
flush-OnWire_example =
    flush-OnWire memory_duplex (λ p s. refl) true 7 ([], []) 1 7 steps is_async one_queued

abbrev closed : Io memory_duplex
closed = close-Delivered_example.0

-- The other side receives what the closed channel has sent.
abbrev wire : List (List ℕ) × List ℕ
wire = ([], concat closed.channel_stream.0)

abbrev reads : List Call
reads = recv_data 2 ∷ send_data (7 ∷ []) ∷ recv_data 1 ∷ []

pair_refines_example :
    (io' : Io memory_duplex) × (run memory_duplex 4 7 reads (new_io memory_duplex false 7 wire)
      ≡ ok (replay reads (1 ∷ 2 ∷ 3 ∷ []), io'))
pair_refines_example =
    pair_refines memory_duplex memory_duplex (λ p s. refl) true 7 ([], []) 1 7 false 7 4 wire []
      reads refl steps nothing_queued close-Delivered_example.1 (sym (append-nil wire.1))
      (omega arith) (omega arith) (omega arith)

-- A message of two bytes is on its way.
abbrev incoming : List (List ℕ) × List ℕ
incoming = ([], concat (frames 0 ((9 ∷ 8 ∷ []) ∷ [])))

incoming-Reads : Reads memory_duplex (9 ∷ 8 ∷ []) [] (new_io memory_duplex false 7 incoming)
incoming-Reads =
    new_io-Reads memory_duplex false 7 incoming ((9 ∷ 8 ∷ []) ∷ []) [] (sym (append-nil incoming.1))
      ((λ e. cc), tt) (omega arith)

sync_lem_example :
    (io' : Io memory_duplex) × (sync memory_duplex 3 7 (new_io memory_duplex false 7 incoming)
      ≡ ok io')
    × Carries memory_duplex (new_send_ctx 7).buffer [] (9 ∷ []) io'
    × Reads memory_duplex (8 ∷ []) [] io'
    × Holds io'.send_ctx.buffer []
sync_lem_example =
    sync_lem memory_duplex (λ p s. refl) 3 7 (new_io memory_duplex false 7 incoming)
      (Reach-Carries memory_duplex (λ p s. refl) false 7 incoming here) incoming-Reads (omega arith)
