-- ===== src/Tests/Client.antt =====
-- Runs of the theorems on ports, waiting connections, the proxy client and the exception registry.
use zktls_bench.Prelude.{ℕ, ◌≡◌, refl, false, ◌∷◌, [], length, arith, some, replicate}
use zktls_bench.Errors.{ok}
use zktls_bench.PadoChannel.{uint32, send_size, recv_size, recv_size-send_size}
use zktls_bench.Proxy.Requests.{send_request, IsRequest, send_request-IsRequest}
use zktls_bench.Registry.{
  ExceptionFactory, get_exception_factory, get_exception_msg, error_msg, push_all,
  get_exception_factory-error_msg,
}
use zktls_bench.IoManager.Ports.{new_ports, in_use, mark_port, get_unused_port}
use zktls_bench.IoManager.Ports.Laws.{
  new_ports-IsPorts, Given, get_unused_port-Given, in_use-mark_port,
}
use zktls_bench.IoManager.Exceptions.{check_exception_frequency, check_exception_frequency_lem}
use zktls_bench.IoManager.Manager.{IoManager, new_io_manager, reserve_number, find_or}
use zktls_bench.IoManager.Manager.Laws.{
  IsOrderly, new_io_manager-IsOrderly, reserve_number-IsOrderly,
}
use zktls_bench.Proxy.RecvProxy.{
  RecvProxyCtx, new_recv_proxy_ctx, put_to_recv_proxy_ctx, recv_from_recv_proxy_ctx,
}
use zktls_bench.Proxy.RecvProxy.Laws.{
  Keeps, new_recv_proxy_ctx-Keeps, put_to_recv_proxy_ctx-Keeps, Loop, recv_from_recv_proxy_ctx-Loop,
}
use zktls_bench.Proxy.SendProxy.{
  new_send_proxy_ctx, put_all, set_send_proxy_ctx, get_all, result, null, get_all-put_all,
}
use zktls_bench.Proxy.Bytes.{
  new_byte_count, start_count, set_wait_bytes, on_all, wait_for_bytes, goes_on,
  wait_for_bytes-on_all,
}
use zktls_bench.Proxy.Calls.{with_call, Calls, new_calls}

abbrev network_factory : ExceptionFactory
network_factory = record { error_code = 10002; error_type = 78 ∷ 69 ∷ [] }

get_exception_factory-error_msg_example :
    (get_exception_factory
        (push_all [] (network_factory ∷ []))
        (error_msg (78 ∷ 69 ∷ []) (93 ∷ 91 ∷ []))
      ≡ some network_factory)
    × (get_exception_msg (error_msg (78 ∷ 69 ∷ []) (93 ∷ 91 ∷ [])) ≡ 93 ∷ 91 ∷ [])
get_exception_factory-error_msg_example =
    get_exception_factory-error_msg [] [] network_factory (93 ∷ 91 ∷ []) tt
      ((λ e. absurd (omega arith)), ((λ e. absurd (omega arith)), tt))

get_unused_port-Given_example : Given (get_unused_port 1023 new_ports) new_ports
unfolding in_use
get_unused_port-Given_example =
    get_unused_port-Given new_ports 7 new_ports-IsPorts (omega arith, omega arith) refl

in_use-mark_port_example : in_use (mark_port new_ports.port_map 70) 71 ≡ false
unfolding in_use
in_use-mark_port_example = in_use-mark_port new_ports.port_map 70 71 (omega arith)

check_exception_frequency_lem_example : (check_exception_frequency (replicate 999 50) 100).0 ≡ false
check_exception_frequency_lem_example =
    check_exception_frequency_lem (replicate 999 50) 100 (omega arith) (omega arith)

-- A connection is a number here.
abbrev reserved : IoManager ℕ
reserved = reserve_number (new_io_manager ℕ) 2 7 100

reserved-IsOrderly : IsOrderly 2 reserved
unfolding find_or
reserved-IsOrderly =
    reserve_number-IsOrderly 2 (new_io_manager ℕ) 7 100 (omega arith) refl
      (new_io_manager-IsOrderly 2)

abbrev three_bytes : RecvProxyCtx
three_bytes = put_to_recv_proxy_ctx new_recv_proxy_ctx (4 ∷ 5 ∷ 6 ∷ [])

three_bytes-Keeps : Keeps three_bytes (4 ∷ 5 ∷ 6 ∷ [])
three_bytes-Keeps =
    put_to_recv_proxy_ctx-Keeps new_recv_proxy_ctx [] (4 ∷ 5 ∷ 6 ∷ []) new_recv_proxy_ctx-Keeps
      (omega arith) (omega arith)

recv_from_recv_proxy_ctx-Loop_example :
    Loop
      (recv_from_recv_proxy_ctx three_bytes 2)
      three_bytes.inner_ctx
      three_bytes.id
      (4 ∷ 5 ∷ 6 ∷ [])
      []
      2
unfolding put_to_recv_proxy_ctx
recv_from_recv_proxy_ctx-Loop_example =
    recv_from_recv_proxy_ctx-Loop three_bytes (4 ∷ 5 ∷ 6 ∷ []) 2 three_bytes-Keeps (omega arith)

get_all-put_all_example :
    get_all (3 ∷ 4 ∷ []) (set_send_proxy_ctx (put_all new_send_proxy_ctx (3 ∷ 4 ∷ [])) false)
    ≡ result 3 ∷ result 4 ∷ null ∷ []
get_all-put_all_example = get_all-put_all (3 ∷ 4 ∷ []) false

wait_for_bytes-on_all_example :
    wait_for_bytes (on_all (start_count (set_wait_bytes new_byte_count 5)) (2 ∷ 3 ∷ []))
    ≡ ok goes_on
wait_for_bytes-on_all_example = wait_for_bytes-on_all new_byte_count 5 (2 ∷ 3 ∷ []) (omega arith)

abbrev one_call : Calls
one_call = with_call new_calls 12

recv_size-send_size_example :
    (recv_size uint32 (send_size uint32 0x0102_0304) ≡ 0x0102_0304)
    × (length (send_size uint32 0x0102_0304) ≡ 4)
recv_size-send_size_example = recv_size-send_size uint32 0x0102_0304 (omega arith)

send_request-IsRequest_example : IsRequest (send_request 7 3 0 (1 ∷ 2 ∷ [])) 7 3 0 (1 ∷ 2 ∷ [])
send_request-IsRequest_example =
    send_request-IsRequest 7 3 0 (1 ∷ 2 ∷ []) (omega arith) (omega arith) (omega arith)
      (omega arith)
