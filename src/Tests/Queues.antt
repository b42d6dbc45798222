-- ===== src/Tests/Queues.antt =====
-- Runs of the theorems on the receive context, the socket and the chunks.
use zktls_bench.Prelude.{◌≡◌, refl, ◌∷◌, [], List, arith}
use zktls_bench.Ws.Recv.{RecvBuffer, new_recv_ctx, put_to_recv_ctx, insert_chunk}
use zktls_bench.Ws.Recv.Queue.{IsQueue, new_recv_ctx-IsQueue, put_to_recv_ctx-IsQueue}
use zktls_bench.Ws.Recv.Reading.{Took, recv_from_recv_ctx-Took}
use zktls_bench.Ws.Recv.Chunks.{insert_chunk_comm}
use zktls_bench.Ws.Socket.{RecvEvent, delivered, interrupted, new_socket, recv_ex}
use zktls_bench.Ws.Socket.Laws.{Read, recv_ex-Read, new_socket-IsReady}

abbrev first_message : RecvBuffer
first_message = record { id = 1; len = 3; payload = 5 ∷ 6 ∷ 7 ∷ [] }

abbrev second_message : RecvBuffer
second_message = record { id = 2; len = 1; payload = 8 ∷ [] }

one_message-IsQueue : IsQueue (put_to_recv_ctx new_recv_ctx first_message) 1 (5 ∷ 6 ∷ 7 ∷ [])
one_message-IsQueue =
    put_to_recv_ctx-IsQueue first_message new_recv_ctx-IsQueue refl refl (omega arith) (omega arith)

recv_from_recv_ctx-Took_example :
    Took (put_to_recv_ctx new_recv_ctx first_message) 2 1 (5 ∷ 6 ∷ 7 ∷ [])
recv_from_recv_ctx-Took_example =
    recv_from_recv_ctx-Took (put_to_recv_ctx new_recv_ctx first_message) 2 {last = 1}
      {rest = 5 ∷ 6 ∷ 7 ∷ []} one_message-IsQueue (omega arith) (omega arith) (omega arith)

insert_chunk_comm_example :
    insert_chunk first_message (insert_chunk second_message [])
    ≡ insert_chunk second_message (insert_chunk first_message [])
insert_chunk_comm_example =
    insert_chunk_comm first_message second_message [] (λ e. absurd (omega arith))

-- Two pieces with an interruption between them.
abbrev pieces : List RecvEvent
pieces = delivered (1 ∷ 2 ∷ []) ∷ interrupted ∷ delivered (3 ∷ 4 ∷ 5 ∷ []) ∷ delivered [] ∷ []

recv_ex-Read_example : Read (recv_ex 5 (new_socket pieces) 4 []) (new_socket pieces) [] 4
recv_ex-Read_example =
    recv_ex-Read 5 4 (new_socket pieces) [] 4
      (new_socket-IsReady pieces (omega arith, (tt, (omega arith, (omega arith, tt)))))
      (omega arith) (omega arith)
