-- ===== src/Tests/Wire.antt =====
-- Runs of the theorems on headers, masks, frames and whole messages.
use zktls_bench.Prelude.{
  ℕ, ◌≡◌, refl, true, false, ◌∷◌, [], ◌++◌, List, length, take, drop, arith, some, none, replicate,
  concat, length-take,
}
use zktls_bench.Errors.{client_to_pado, err}
use zktls_bench.Ws.Header.{gen_web_socket_header, web_socket_message_data}
use zktls_bench.Ws.Header.Laws.{Reads, Reads-gen_web_socket_header, header_bytes}
use zktls_bench.Ws.Mask.{un_mask_data}
use zktls_bench.Ws.Mask.Laws.{mask_payload, un_mask_data_lem}
use zktls_bench.Ws.Base64.{base64_encode, decode, decode-base64_encode}
use zktls_bench.Ws.SendBuffer.{SendBuffer, new_send_buffer, put}
use zktls_bench.Ws.SendBuffer.Laws.{Holds, new-Holds, put-Holds}
use zktls_bench.Ws.FlushCtx.{new_flush_ctx}
use zktls_bench.Ws.Send.{SendStream, SendCtx, send_message, async_send_message}
use zktls_bench.Ws.Send.Laws.{Sends, Queues, send_message-Progress, async_send_message-Progress}
use zktls_bench.Ws.Send.Progress.{frames}
use zktls_bench.Ws.Channel.{Channel}
use zktls_bench.Ws.Recv.{RecvCtx, new_recv_ctx}
use zktls_bench.Ws.Recv.Queue.{new_recv_ctx-IsQueue}
use zktls_bench.Ws.Message.{recv_message, recv_chunk, recv_frame}
use zktls_bench.Ws.Message.Header.{
  FrameRead, recv_frame-header_bytes, recv_frame-broken, unmasked, broken_at,
}
use zktls_bench.Ws.Message.Laws.{Receiving, Received, recv_message-Received}
use zktls_bench.Ws.Message.Chunks.{
  ChunkRead, recv_chunk-ChunkRead, chunk_of, chunk_frame, insert_all, with_list,
}

-- A channel over a list of bytes.
abbrev memory_channel : Channel
memory_channel = record {
  State = List ℕ;
  connection_type = client_to_pado;
  recv_ex = λ n s. (take n s, drop n s);
  pending = λ s. s;
  recv_ex-full = λ n s h. (refl, refl);
  recv_ex-short = λ n s h. omega (arith, length-take n s);
}

-- A stream that takes every packet.
abbrev memory_stream : SendStream
memory_stream = record {
  State = List (List ℕ);
  send_ex = λ p s. (true, s ++ (p ∷ []));
  flush = λ s. s;
  sent = λ s. s;
  send_ex-sent = λ p s h. refl;
}

Reads-gen_web_socket_header_example :
    let (bytes, header_len) = gen_web_socket_header (replicate 14 0 ++ (7 ∷ [])) 300 (some 5) in
    Reads (take header_len bytes ++ (9 ∷ [])) 300 (some 5)
    × (web_socket_message_data (take header_len bytes ++ (9 ∷ [])) ≡ header_len)
    × (drop 14 bytes ≡ 7 ∷ [])
Reads-gen_web_socket_header_example =
    Reads-gen_web_socket_header 300 (some 5) (7 ∷ []) (9 ∷ []) (omega arith) (omega arith)

un_mask_data_lem_example :
    un_mask_data (1 ∷ 2 ∷ 3 ∷ 4 ∷ 5 ∷ 6 ∷ 9 ∷ []) 6 0x1020304
    ≡ mask_payload 0x1020304 (1 ∷ 2 ∷ 3 ∷ 4 ∷ 5 ∷ 6 ∷ []) ++ (9 ∷ [])
un_mask_data_lem_example =
    un_mask_data_lem 0x1020304 (omega arith) (1 ∷ 2 ∷ 3 ∷ 4 ∷ 5 ∷ 6 ∷ []) (9 ∷ [])
      (omega arith, (omega arith, (omega arith, (omega arith, (omega arith, (omega arith, tt))))))

decode-base64_encode_example :
    (decode (base64_encode (77 ∷ 97 ∷ 110 ∷ 77 ∷ [])) ≡ 77 ∷ 97 ∷ 110 ∷ 77 ∷ [])
    × (length (base64_encode (77 ∷ 97 ∷ 110 ∷ 77 ∷ [])) ≡ 8)
decode-base64_encode_example =
    decode-base64_encode (77 ∷ 97 ∷ 110 ∷ 77 ∷ [])
      (omega arith, (omega arith, (omega arith, (omega arith, tt))))

-- A buffer of four bytes of payload that holds three.
abbrev held_buffer : SendBuffer
held_buffer = put (new_send_buffer 4 none 7).0 (1 ∷ 2 ∷ 3 ∷ [])

held_buffer-Holds : Holds held_buffer (1 ∷ 2 ∷ 3 ∷ [])
unfolding new_send_buffer
held_buffer-Holds = put-Holds (1 ∷ 2 ∷ 3 ∷ []) (new-Holds 4 none 7) (omega arith)

abbrev held_ctx : SendCtx
held_ctx = record { buffer = held_buffer; flush_ctx = new_flush_ctx; async = false }

send_message-Progress_example :
    Sends memory_stream
      (λ p s. refl)
      held_buffer
      (1 ∷ 2 ∷ 3 ∷ [])
      (4 ∷ 5 ∷ 6 ∷ 7 ∷ 8 ∷ [])
      []
      (send_message memory_stream held_ctx (4 ∷ 5 ∷ 6 ∷ 7 ∷ 8 ∷ []) 7 [])
unfolding put new_send_buffer
send_message-Progress_example =
    send_message-Progress memory_stream (λ p s. refl) held_ctx (4 ∷ 5 ∷ 6 ∷ 7 ∷ 8 ∷ []) 7 []
      held_buffer-Holds (omega arith) (omega arith)

async_send_message-Progress_example :
    Queues held_ctx
      (1 ∷ 2 ∷ 3 ∷ [])
      (4 ∷ 5 ∷ 6 ∷ 7 ∷ 8 ∷ [])
      (async_send_message held_ctx (4 ∷ 5 ∷ 6 ∷ 7 ∷ 8 ∷ []) 7)
unfolding put new_send_buffer
async_send_message-Progress_example =
    async_send_message-Progress held_ctx (4 ∷ 5 ∷ 6 ∷ 7 ∷ 8 ∷ []) 7 held_buffer-Holds (omega arith)
      (omega arith)

-- Two frames on their way, and a byte behind them.
abbrev two_frames : List ℕ
two_frames = concat (frames 0 ((1 ∷ 2 ∷ []) ∷ (3 ∷ 4 ∷ 5 ∷ []) ∷ [])) ++ (99 ∷ [])

two_frames-Receiving :
    Receiving memory_channel new_recv_ctx two_frames 0 []
      ((1 ∷ 2 ∷ []) ∷ (3 ∷ 4 ∷ 5 ∷ []) ∷ [])
      (99 ∷ [])
two_frames-Receiving = record {
  queue = new_recv_ctx-IsQueue;
  one = omega arith;
  behind = refl;
  sendable = ((omega arith, omega arith), ((omega arith, omega arith), tt));
  small = omega arith;
}

recv_message-Received_example :
    Received memory_channel
      (recv_message memory_channel 3 new_recv_ctx 4 [] two_frames)
      []
      (1 ∷ 2 ∷ 3 ∷ 4 ∷ 5 ∷ [])
      4
      (99 ∷ [])
recv_message-Received_example =
    recv_message-Received memory_channel 3 new_recv_ctx two_frames 0 []
      ((1 ∷ 2 ∷ []) ∷ (3 ∷ 4 ∷ 5 ∷ []) ∷ []) (99 ∷ []) [] 4 4 two_frames-Receiving (omega arith)
      (omega arith) (omega arith) (omega arith)

recv_frame-header_bytes_example :
    FrameRead memory_channel 8
      (unmasked (some 0x1020304) (5 ∷ 6 ∷ []))
      (header_bytes 2 (some 0x1020304) ++ (5 ∷ 6 ∷ 99 ∷ []))
      (99 ∷ [])
recv_frame-header_bytes_example =
    recv_frame-header_bytes memory_channel 8 (some 0x1020304) (5 ∷ 6 ∷ [])
      (header_bytes 2 (some 0x1020304) ++ (5 ∷ 6 ∷ 99 ∷ [])) (99 ∷ []) (omega arith) (omega arith)
      (omega arith, (omega arith, tt)) refl

recv_frame-broken_example :
    recv_frame memory_channel 8 (130 ∷ 2 ∷ 5 ∷ []) ≡ err (broken_at memory_channel 3 2)
unfolding header_bytes
recv_frame-broken_example =
    recv_frame-broken memory_channel 8 none (5 ∷ 6 ∷ []) (130 ∷ 2 ∷ 5 ∷ []) (6 ∷ []) tt
      (omega arith) (omega arith) refl (omega arith)

abbrev chunk_ctx : RecvCtx
chunk_ctx = record { list = []; info = none; recv_zero = false; is_chunk = true }

recv_chunk-ChunkRead_example :
    ChunkRead memory_channel
      (recv_chunk memory_channel 3 chunk_ctx 1
        (chunk_frame (2 ∷ 0 ∷ 0 ∷ 0 ∷ []) ++ (chunk_frame (1 ∷ 0 ∷ 0 ∷ 0 ∷ 8 ∷ []) ++ (99 ∷ []))))
      (chunk_of (1 ∷ 0 ∷ 0 ∷ 0 ∷ 8 ∷ []))
      (with_list memory_channel chunk_ctx (insert_all [] ((2 ∷ 0 ∷ 0 ∷ 0 ∷ []) ∷ [])))
      (99 ∷ [])
unfolding header_bytes
recv_chunk-ChunkRead_example =
    recv_chunk-ChunkRead memory_channel 3 chunk_ctx (1 ∷ 0 ∷ 0 ∷ 0 ∷ 8 ∷ [])
      ((2 ∷ 0 ∷ 0 ∷ 0 ∷ []) ∷ [])
      (chunk_frame (2 ∷ 0 ∷ 0 ∷ 0 ∷ []) ++ (chunk_frame (1 ∷ 0 ∷ 0 ∷ 0 ∷ 8 ∷ []) ++ (99 ∷ [])))
      (99 ∷ []) refl tt ((omega arith, omega arith, λ e. absurd (omega arith)), tt) (omega arith)
      (omega arith) refl (omega arith)
