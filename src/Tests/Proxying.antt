-- ===== src/Tests/Proxying.antt =====
-- Runs of the theorems on the calls of the proxy client and on its threads.
use zktls_bench.Prelude.{
  length, drop, ℕ, ◌≡◌, refl, true, false, List, [], ◌∷◌, ◌++◌, some, none, take, length-take,
  arith,
}
use zktls_bench.Proxy.Calls.{with_call, new_calls, bridge_socket_on_message}
use zktls_bench.Errors.{ok, client_to_tls_server}
use zktls_bench.Ws.Recv.{RecvCtx}
use zktls_bench.Ws.Message.Chunks.{chunk_frame}
use zktls_bench.Proxy.SendProxy.{new_send_proxy_ctx, append_node}
use zktls_bench.Proxy.RecvProxy.{new_recv_proxy_ctx, returns}
use zktls_bench.Proxy.RecvProxy.Laws.{new_recv_proxy_ctx-Keeps}
use zktls_bench.Proxy.Bytes.{new_byte_count}
use zktls_bench.Proxy.Requests.{Client, check_network}
use zktls_bench.Proxy.Functions.{
  SendEx, begin_socket3, end_socket3, begin_shutdown3, end_shutdown3, returns,
}
use zktls_bench.Proxy.Functions.Laws.{Works, Answers, with_answer, begun, asked, behind_call}
use zktls_bench.Proxy.Functions.Requests.{ints, socket3_lem, shutdown3_lem}
use zktls_bench.Proxy.Receiving.{is_closed, process_recv, recv3, ended}
use zktls_bench.Proxy.Receiving.Laws.{answer_block, answers, process_recv-recv3}
use zktls_bench.Proxy.Functions.Addresses.{Addrinfo}
use zktls_bench.Proxy.Network.{Network, process_network}
use zktls_bench.Proxy.Network.Laws.{Completed, process_network-begun}
use zktls_bench.Ws.Channel.{Channel}
use zktls_bench.Ws.Header.Laws.{header_bytes}

-- A channel over a list of bytes.
abbrev bytes_channel : Channel
bytes_channel = record {
  State = List ℕ;
  connection_type = client_to_tls_server;
  recv_ex = λ n s. (take n s, drop n s);
  pending = λ s. s;
  recv_ex-full = λ n s h. (refl, refl);
  recv_ex-short = λ n s h. omega (arith, length-take n s);
}

-- A client with a call of another thread.
abbrev waiting_client : Client
waiting_client = record {
  calls = with_call new_calls 12;
  send_ctx = new_send_proxy_ctx;
  recv_ctx = new_recv_proxy_ctx;
  sock = 3;
  count = new_byte_count;
  proxy_close = false;
  send_thread = true;
  recv_thread = true;
  sent = [];
}

-- The proxy reports the error 107 for the call 2.
abbrev failure : List ℕ
failure = 2 ∷ 0 ∷ 0 ∷ 0 ∷ 255 ∷ 255 ∷ 255 ∷ 255 ∷ 107 ∷ 0 ∷ 0 ∷ 0 ∷ []

abbrev takes_all : SendEx
takes_all packet = ok tt

waiting-Works : (packet : List ℕ) → Works takes_all packet waiting_client
unfolding append_node check_network
waiting-Works packet = record {
  fresh = (omega arith, tt);
  numbered = omega arith;
  checked = refl;
  sendable = refl;
}

failure-Answers : Answers failure 12 2
failure-Answers = record {
  call_id = refl;
  whole_header = omega arith;
  enough = omega arith;
  an_int = omega arith;
}

socket3_lem_example :
    (packet : List ℕ) × (length packet ≡ 20)
    × (ints 5 packet ≡ 2 ∷ 1 ∷ 2 ∷ 1 ∷ 0 ∷ [])
    × (begin_socket3 takes_all 2 1 0 waiting_client ≡ (ok 2, asked 12 packet waiting_client))
    × (bridge_socket_on_message (asked 12 packet waiting_client).calls failure 2 0
        ≡ ok (with_answer failure waiting_client.calls))
    × (end_socket3 2 (record (asked 12 packet waiting_client) {
      calls = with_answer failure waiting_client.calls;
    })
        ≡ ok (returns 0xffff_ffff (some 107), behind_call packet waiting_client))
socket3_lem_example =
    socket3_lem takes_all 2 1 0 waiting_client failure 2 0 (omega arith) (omega arith) (omega arith)
      (waiting-Works _) failure-Answers

shutdown3_lem_example :
    (packet : List ℕ) × (length packet ≡ 16)
    × (ints 4 packet ≡ 2 ∷ 3 ∷ 3 ∷ 2 ∷ [])
    × (begin_shutdown3 takes_all 3 2 waiting_client ≡ (ok 2, asked 12 packet waiting_client))
    × (bridge_socket_on_message (asked 12 packet waiting_client).calls failure 2 0
        ≡ ok (with_answer failure waiting_client.calls))
    × (end_shutdown3 2 (record (asked 12 packet waiting_client) {
      calls = with_answer failure waiting_client.calls;
    })
        ≡ ok (returns 0xffff_ffff (some 107), behind_call packet waiting_client))
shutdown3_lem_example =
    shutdown3_lem takes_all 3 2 waiting_client failure 2 0 (omega arith) (omega arith)
      (waiting-Works _) failure-Answers

abbrev success : List ℕ
success = 2 ∷ 0 ∷ 0 ∷ 0 ∷ 0 ∷ 0 ∷ 0 ∷ 0 ∷ 0 ∷ 0 ∷ 0 ∷ 0 ∷ []

process_recv-recv3_example :
    (c' : Client) × (process_recv takes_all
        (answers 2 ((7 ∷ 8 ∷ []) ∷ (9 ∷ []) ∷ []) ++ (answer_block 4 [] ∷ []))
        0
        0
        waiting_client
      ≡ ok (ended 0 c'))
    × (is_closed c' ≡ true)
    × (c'.calls.call_result_head ≡ waiting_client.calls.call_result_head)
    × (ctx : RecvCtx) × (recv3 c' 5 ≡ ok (returns (7 ∷ 8 ∷ 9 ∷ []) ctx))
unfolding append_node
process_recv-recv3_example =
    process_recv-recv3 takes_all waiting_client ((7 ∷ 8 ∷ []) ∷ (9 ∷ []) ∷ []) [] 0 0 5 (λ p. refl)
      (omega arith, tt) refl new_recv_proxy_ctx-Keeps
      ((omega arith, omega arith), ((omega arith, omega arith), tt)) (omega arith) (omega arith)

abbrev chunks : RecvCtx
chunks = record { list = []; info = none; recv_zero = false; is_chunk = true }

-- The answer to another call comes in first.
abbrev one_answer : List ℕ
one_answer = 1 ∷ 0 ∷ 0 ∷ 0 ∷ 5 ∷ 0 ∷ 0 ∷ 0 ∷ 0 ∷ 0 ∷ 0 ∷ 0 ∷ []

abbrev other_answer : List ℕ
other_answer = 9 ∷ 0 ∷ 0 ∷ 0 ∷ 5 ∷ 0 ∷ 0 ∷ 0 ∷ 0 ∷ 0 ∷ 0 ∷ 0 ∷ []

abbrev network : Network (List ℕ)
network = record {
  network_recv_ctx = chunks;
  channel_stream = chunk_frame other_answer ++ (chunk_frame one_answer ++ []);
  wait_next_call_id = true;
}

process_network-begun_example :
    Completed bytes_channel
      (process_network bytes_channel 3 network (begun 12 new_calls) 0)
      network
      new_calls
      one_answer
      (other_answer ∷ [])
      []
unfolding header_bytes
process_network-begun_example =
    process_network-begun bytes_channel 3 12 network new_calls one_answer (other_answer ∷ []) [] 0
      tt refl (omega arith)
      (record {
        call_id = refl;
        whole_header = omega arith;
        enough = omega arith;
        an_int = omega arith;
      })
      refl tt ((omega arith, omega arith, λ e. absurd (omega arith)), tt) refl (omega arith)

abbrev two_addresses : List Addrinfo
two_addresses =
    record {
      ai_flags = 2;
      ai_family = 2;
      ai_socktype = 1;
      ai_protocol = 6;
      ai_addr = 2 ∷ 0 ∷ 1 ∷ 187 ∷ [];
      ai_canonname = none;
    }
    ∷ record {
      ai_flags = 2;
      ai_family = 10;
      ai_socktype = 1;
      ai_protocol = 6;
      ai_addr = 10 ∷ 0 ∷ [];
      ai_canonname = none;
    }
    ∷ []
