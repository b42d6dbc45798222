-- ===== src/Proxy/Requests.antt =====
-- `send3` of network/proxy_client.cpp with `check_network`: a request to the proxy to send bytes.
use zktls_bench.Prelude.{
  ℕ, ◌^◌, ◌<◌, ◌≡◌, refl, Bool, ◌||◌, List, [], ◌∷◌, ◌++◌, if◌then◌else◌, length, take, drop,
}
use zktls_bench.Prelude.Bytes.{le, from_le, from_le-le}
use zktls_bench.Errors.{Outcome, ok, err, network_error, ◌>>=◌}
use zktls_bench.Proxy.Calls.{Calls, allocate_call_result}
use zktls_bench.Proxy.SendProxy.{SendProxyCtx, put_to_send_proxy_ctx}
use zktls_bench.Proxy.RecvProxy.{RecvProxyCtx}
use zktls_bench.Proxy.Bytes.{ByteCount, start_count}

-- The parts of `ProxyClientCtx` that the requests use. `sock` is the socket of the receive context,
-- `send_thread` and `recv_thread` say which threads run, and `sent` are the packets that went out.
pub record Client : Type 0 where
  pub calls : Calls
  pub send_ctx : SendProxyCtx
  pub recv_ctx : RecvProxyCtx
  pub sock : ℕ
  pub count : ByteCount
  pub proxy_close : Bool
  pub send_thread : Bool
  pub recv_thread : Bool
  pub sent : List (List ℕ)

unfoldable pub check_network : Client → Outcome (Unit {0})
check_network c =
    if c.proxy_close
    then err (network_error "connection to proxy broken")
    else if c.count.recv_zero || c.recv_ctx.inner_ctx.recv_zero
    then err (network_error "connection to tls server broken")
    else ok tt

-- `MSG`, with the number of the function, POSIX_SOCKET_MSG_SEND.
unfoldable pub send_request : ℕ → ℕ → ℕ → List ℕ → List ℕ
send_request call_id socket flags message =
    le 4 call_id ++ (le 4 10 ++ (le 4 socket ++ (le 4 (length message) ++ (le 4 flags ++ message))))

-- The call is allocated and the count begun before the network is checked. `send_ex` is what `SendEx`
-- does with a packet: it may throw.
unfoldable pub send3 :
    (List ℕ → Outcome (Unit {0})) → Client → ℕ → List ℕ → ℕ → Outcome (ℕ × Client)
send3 send_ex c socket message flags = do
  (id, calls) ← allocate_call_result c.calls 12
  checked ← check_network (record c { calls = calls; count = start_count c.count })
  done ← send_ex (send_request id socket flags message)
  ok (
    length message,
    record c {
      calls = calls;
      count = start_count c.count;
      sent = c.sent ++ (send_request id socket flags message ∷ []);
      send_ctx = put_to_send_proxy_ctx c.send_ctx id;
    },
  )

-- The fields of a request, as the proxy reads them.
pub record IsRequest (packet : List ℕ) (id socket flags : ℕ) (message : List ℕ) : Type 0 where
  pub call_id : from_le (take 4 packet) ≡ id
  pub function : from_le (take 4 (drop 4 packet)) ≡ 10
  pub socket_field : from_le (take 4 (drop 8 packet)) ≡ socket
  pub len : from_le (take 4 (drop 12 packet)) ≡ length message
  pub flags_field : from_le (take 4 (drop 16 packet)) ≡ flags
  pub payload : drop 20 packet ≡ message

-- From a request of `send3`, of numbers that fit 32 bits, the proxy reads the id of the call, the
-- function, the socket, the length, the flags and the message.
pub send_request-IsRequest :
    (id socket flags : ℕ) (message : List ℕ)
    → id < 2 ^ 32
    → socket < 2 ^ 32
    → flags < 2 ^ 32
    → length message < 2 ^ 32
    → IsRequest (send_request id socket flags message) id socket flags message
unfolding send_request
send_request-IsRequest id socket flags message h k l m = record {
  call_id = from_le-le 4 id h;
  function = refl;
  socket_field = from_le-le 4 socket k;
  len = from_le-le 4 (length message) m;
  flags_field = from_le-le 4 flags l;
  payload = refl;
}
