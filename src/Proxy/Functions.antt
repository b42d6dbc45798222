-- ===== src/Proxy/Functions.antt =====
-- `socket3`, `connect3`, `shutdown3` and `getaddrinfo3` of network/proxy_client.cpp, and the thread
-- `process_send`. Each function is its request, up to where it waits, and what it does with the
-- answer. An int is its 32-bit pattern.
pub mod Laws
pub mod Requests
pub mod Addresses
use zktls_bench.Prelude.{
  ℕ, ◌+◌, ◌-◌, ◌*◌, Bool, true, false, not, Option, none, some, List, [], ◌∷◌, ◌++◌, ltb, leb, ◌==◌,
  if◌then◌else◌, length, take, drop, replicate,
}
use zktls_bench.Prelude.Bytes.{le, from_le}
use zktls_bench.Errors.{Outcome, ok, err, fault, stuck, ◌>>=◌}
use zktls_bench.Proxy.Calls.{
  CallResult, Calls, Waited, normal, gave_up, waits, allocate_call_result, put_call_id,
  wait_for_call_result, free_call_result,
}
use zktls_bench.Proxy.SendProxy.{SendProxyCtx, Fetched, result, null, get_from_send_proxy_ctx}
use zktls_bench.Proxy.Requests.{Client, check_network}

-- `SocketCallHeader`
abbrev pub call_header : ℕ → ℕ → List ℕ
call_header call_id function = le 4 call_id ++ le 4 function

unfoldable pub socket_request : ℕ → ℕ → ℕ → ℕ → List ℕ
socket_request domain type protocol id =
    call_header id 1 ++ (le 4 domain ++ (le 4 type ++ le 4 protocol))

unfoldable pub shutdown_request : ℕ → ℕ → ℕ → List ℕ
shutdown_request socket how id = call_header id 3 ++ (le 4 socket ++ le 4 how)

-- A null pointer for the address sends zeros.
abbrev pub address_bytes : Option (List ℕ) → ℕ → List ℕ
address_bytes none address_len = replicate address_len 0
address_bytes (some address) address_len = take address_len address

unfoldable pub connect_request : ℕ → Option (List ℕ) → ℕ → ℕ → List ℕ
connect_request socket address address_len id =
    call_header id 5 ++ (le 4 socket ++ (le 4 address_len ++ address_bytes address address_len))

pub record Hints : Type 0 where
  pub ai_flags : ℕ
  pub ai_family : ℕ
  pub ai_socktype : ℕ
  pub ai_protocol : ℕ

-- A text in a block of zeros; a null pointer leaves them.
abbrev pub text_field : ℕ → Option (List ℕ) → List ℕ
text_field size none = replicate size 0
text_field size (some text) = text ++ replicate (size - length text) 0

-- `hasHints` and the hints.
abbrev pub hints_field : Option Hints → List ℕ
hints_field none = replicate 20 0
hints_field (some h) =
    le 4 1 ++ (le 4 h.ai_flags ++ (le 4 h.ai_family ++ (le 4 h.ai_socktype ++ le 4 h.ai_protocol)))

unfoldable pub getaddrinfo_request : Option (List ℕ) → Option (List ℕ) → Option Hints → ℕ → List ℕ
getaddrinfo_request node service hints id =
    call_header id 18 ++ (text_field 2048 node ++ (text_field 128 service ++ hints_field hints))

-- What comes of `check_network` and `SendEx` for a call that was begun, and `PutCallId` behind them. The
-- call stays in the list when one of them throws.
abbrev pub send_begun : Outcome (Unit {0}) → ℕ → List ℕ → Client → Outcome ℕ × Client
send_begun (ok u) id packet c =
    (ok id, record c { calls = put_call_id c.calls id; sent = c.sent ++ (packet ∷ []) })
send_begun (err e) id packet c = (err e, c)
send_begun fault id packet c = (fault, c)
send_begun stuck id packet c = (stuck, c)

-- What `SendEx` does with a packet: it returns, or it throws.
abbrev pub SendEx : Type 0
SendEx = List ℕ → Outcome (Unit {0})

abbrev pub begin_by : SendEx → (ℕ → List ℕ) → Client → Outcome (ℕ × Calls) → Outcome ℕ × Client
begin_by send_ex request c (ok (id, calls)) =
    let begun : Client = record c { calls = calls } in
    let result = check_network begun >>= λ checked. send_ex (request id) in
    send_begun result id (request id) begun
begin_by send_ex request c (err e) = (err e, c)
begin_by send_ex request c fault = (fault, c)
begin_by send_ex request c stuck = (stuck, c)

-- A call is begun, with the number of bytes expected of its answer, and its request sent.
unfoldable pub begin_call : SendEx → ℕ → (ℕ → List ℕ) → Client → Outcome ℕ × Client
begin_call send_ex expected request c =
    begin_by send_ex request c (allocate_call_result c.calls expected)

-- The fields of `SocketCallResultHeader`.
abbrev pub ret_of : CallResult → ℕ
ret_of b = from_le (take 4 (drop 4 b.answer))

abbrev pub errno_of : CallResult → ℕ
errno_of b = from_le (take 4 (drop 8 b.answer))

-- `ret < 0`, and `ret != 0`
abbrev pub is_negative : ℕ → Bool
is_negative ret = leb 0x8000_0000 ret

abbrev pub is_failure : ℕ → Bool
is_failure ret = not (ret == 0)

abbrev pub minus_one : ℕ
minus_one = 0xffff_ffff

-- A function returns, with what it writes to errno, or it waits.
pub data CallReturn : Type 0 where
  returns : ℕ → Option ℕ → CallReturn
  still_waits : CallReturn

abbrev pub end_by : (ℕ → Bool) → Waited → Calls → Client → Outcome (CallReturn × Client)
end_by failed (normal b) calls c = do
  calls' ← free_call_result calls b.call_id
  ok (
    returns (ret_of b) (if failed (ret_of b) then some (errno_of b) else none),
    record c { calls = calls' },
  )
end_by failed gave_up calls c = ok (returns minus_one none, record c { calls = calls })
end_by failed waits calls c = ok (still_waits, record c { calls = calls })

-- What follows `wait_for_call_result`.
unfoldable pub end_call : (ℕ → Bool) → ℕ → Client → Outcome (CallReturn × Client)
end_call failed id c =
    let (waited, calls) = wait_for_call_result c.calls id in end_by failed waited calls c

unfoldable pub begin_socket3 : SendEx → ℕ → ℕ → ℕ → Client → Outcome ℕ × Client
begin_socket3 send_ex domain type protocol c =
    begin_call send_ex 12 (socket_request domain type protocol) c

unfoldable pub end_socket3 : ℕ → Client → Outcome (CallReturn × Client)
end_socket3 id c = end_call is_negative id c

unfoldable pub begin_shutdown3 : SendEx → ℕ → ℕ → Client → Outcome ℕ × Client
begin_shutdown3 send_ex socket how c = begin_call send_ex 12 (shutdown_request socket how) c

unfoldable pub end_shutdown3 : ℕ → Client → Outcome (CallReturn × Client)
end_shutdown3 id c = end_call is_failure id c

unfoldable pub begin_connect3 : SendEx → ℕ → Option (List ℕ) → ℕ → Client → Outcome ℕ × Client
begin_connect3 send_ex socket address address_len c =
    begin_call send_ex 12 (connect_request socket address address_len) c

-- Both threads start behind a connection that was made.
abbrev pub start_threads : ℕ → CallReturn × Client → CallReturn × Client
start_threads socket (returns ret errno, c) = (
  returns ret errno,
  if ret == 0 then record c { sock = socket; send_thread = true; recv_thread = true } else c,
)
start_threads socket (still_waits, c) = (still_waits, c)

unfoldable pub end_connect3 : ℕ → ℕ → Client → Outcome (CallReturn × Client)
end_connect3 socket id c = do
  returned ← end_call is_failure id c
  ok (start_threads socket returned)

abbrev pub too_long : ℕ → Option (List ℕ) → Bool
too_long max none = false
too_long max (some text) = ltb max (length text)

-- A text that does not fit its block fails the assert, behind the allocation of the call. The size of
-- the answer is that of `Result`.
unfoldable pub begin_getaddrinfo3 :
    SendEx → Option (List ℕ) → Option (List ℕ) → Option Hints → Client → Outcome ℕ × Client
begin_getaddrinfo3 send_ex node service hints c =
    if too_long 2047 node
    then (fault, c)
    else if too_long 127 service
    then (fault, c)
    else begin_call send_ex (12 + 2048 + 4) (getaddrinfo_request node service hints) c

-- Where the thread `process_send` is.
pub data SendThread : Type 0 where
  fetching : SendThread
  waiting_for : ℕ → SendThread
  ended : SendThread

abbrev pub on_fetched : Fetched → SendProxyCtx → Client → Client × SendThread
on_fetched (result id) rest c =
    (record c { send_ctx = rest; calls = put_call_id c.calls id }, waiting_for id)
on_fetched null rest c = (c, ended)
on_fetched Fetched.waits rest c = (c, fetching)

abbrev pub on_waited : Waited → Calls → ℕ → Client → Outcome (Client × SendThread)
on_waited (normal b) calls id c = do
  calls' ← free_call_result calls id
  ok (record c { calls = calls' }, fetching)
on_waited gave_up calls id c = ok (record c { calls = calls }, ended)
on_waited waits calls id c = ok (record c { calls = calls }, waiting_for id)

-- The next step of the thread.
unfoldable pub process_send : Client → SendThread → Outcome (Client × SendThread)
process_send c fetching =
    let (fetched, rest) = get_from_send_proxy_ctx c.send_ctx in ok (on_fetched fetched rest c)
process_send c (waiting_for id) =
    let (waited, calls) = wait_for_call_result c.calls id in on_waited waited calls id c
process_send c ended = ok (c, ended)
