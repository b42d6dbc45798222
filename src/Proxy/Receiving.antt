-- ===== src/Proxy/Receiving.antt =====
-- `do_recv`, the thread `process_recv` and `recv3` of network/proxy_client.cpp: the bytes of the TLS
-- server, asked for from the proxy one block at a time.
pub mod Laws
use zktls_bench.Prelude.{
  ℕ, ◌+◌, ◌*◌, Bool, true, false, ◌&&◌, ◌||◌, Option, none, some, List, [], ◌∷◌, ◌++◌, ltb, ◌==◌,
  if◌then◌else◌, length, take, drop, min,
}
use zktls_bench.Prelude.Bytes.{le}
use zktls_bench.Errors.{Outcome, ok, fault, ◌>>=◌}
use zktls_bench.Proxy.Calls.{
  CallResult, Calls, Waited, normal, gave_up, waits, allocate_call_result, put_call_id,
  bridge_socket_on_message, wait_for_call_result, free_call_result,
}
use zktls_bench.Proxy.RecvProxy.{
  put_to_recv_proxy_ctx, set_recv_proxy_ctx, ReadStep, recv_from_recv_proxy_ctx,
}
use zktls_bench.Proxy.Bytes.{on_recv_bytes, end_count}
use zktls_bench.Proxy.Requests.{Client}
use zktls_bench.Proxy.Functions.{SendEx, call_header, ret_of, errno_of, is_negative, minus_one}

-- SEND_BUFFER_SIZE
abbrev pub buffer_size : ℕ
buffer_size = 1 * 1024 * 1024

unfoldable pub recv_request : ℕ → ℕ → ℕ → ℕ → List ℕ
recv_request socket len flags id = call_header id 11 ++ (le 4 socket ++ (le 4 len ++ le 4 flags))

abbrev pub is_closed : Client → Bool
is_closed c = c.count.recv_zero || c.recv_ctx.inner_ctx.recv_zero

-- The first part of `do_recv`: the id of the call, or `none` where it returns -1 at once.
unfoldable pub begin_recv : SendEx → ℕ → ℕ → ℕ → Client → Outcome (Option ℕ × Client)
begin_recv send_ex socket len flags c = if is_closed c then ok (none, c) else (do
  (id, calls) ← allocate_call_result c.calls 12
  done ← send_ex (recv_request socket len flags id)
  ok (
    some id,
    record c {
      calls = put_call_id calls id;
      sent = c.sent ++ (recv_request socket len flags id ∷ []);
    },
  ))

-- What `do_recv` returns, with the bytes that it copies and what it writes to errno.
pub record Received : Type 0 where
  pub ret : ℕ
  pub bytes : List ℕ
  pub errno : Option ℕ

-- The copy reads behind an answer that is shorter than it says.
unfoldable pub copied : CallResult → ℕ → Outcome Received
copied b len =
    if is_negative (ret_of b)
    then ok (record { ret = ret_of b; bytes = []; errno = some (errno_of b) })
    else (let payload = drop 12 b.answer in
        let n = min (ret_of b) len in
        if ltb (length payload) n
        then fault
        else ok (record { ret = ret_of b; bytes = take n payload; errno = none }))

-- `none` while the call waits.
abbrev pub received_by : ℕ → Waited → Calls → Client → Outcome (Option Received × Client)
received_by len (normal b) calls c = do
  r ← copied b len
  calls' ← free_call_result calls b.call_id
  ok (some r, record c { calls = calls' })
received_by len gave_up calls c =
    ok (some (record { ret = minus_one; bytes = []; errno = none }), record c { calls = calls })
received_by len waits calls c = ok (none, record c { calls = calls })

-- The second part.
unfoldable pub end_recv : ℕ → ℕ → Client → Outcome (Option Received × Client)
end_recv len id c =
    let (waited, calls) = wait_for_call_result c.calls id in received_by len waited calls c

-- EAGAIN and EINTR of Linux.
abbrev pub try_again : ℕ → Bool
try_again errno = (errno == 11) || (errno == 4)

-- What `process_recv` does with what `do_recv` returned: whether it goes on. More bytes than its
-- block are read behind it.
unfoldable pub on_received : ℕ → ℕ → List ℕ → Client → Outcome (Bool × Client)
on_received errno ret bytes c =
    if (ret == 0) || is_negative ret
    then (if (ret == minus_one) && try_again errno
        then ok (true, c)
        else ok (
          false,
          record c { recv_ctx = set_recv_proxy_ctx c.recv_ctx false; count = end_count c.count },
        ))
    else if ltb buffer_size ret
    then fault
    else ok (
      true,
      record c {
        recv_ctx = put_to_recv_proxy_ctx c.recv_ctx bytes;
        count = (on_recv_bytes c.count ret).1;
      },
    )

-- errno behind a write of it.
abbrev pub errno_or : ℕ → Option ℕ → ℕ
errno_or errno none = errno
errno_or errno (some e) = e

-- Where a round of the thread ends: it goes on, it has ended, or it waits in `do_recv`.
pub data Round : Type 0 where
  goes_on ended : ℕ → Client → Round
  in_call : Client → Round

abbrev pub round_of : ℕ → Bool × Client → Round
round_of errno (true, c) = goes_on errno c
round_of errno (false, c) = ended errno c

abbrev pub on_result : ℕ → Option Received × Client → Outcome Round
on_result errno (none, c) = ok (in_call c)
on_result errno (some r, c) = do
  next ← on_received (errno_or errno r.errno) r.ret r.bytes c
  ok (round_of (errno_or errno r.errno) next)

-- The answer of a call that was begun comes in, and the call ends.
abbrev pub with_message : ℕ → List ℕ → ℕ → Option ℕ × Client → Outcome Round
with_message errno message junk (none, c) = do
  next ← on_received errno minus_one [] c
  ok (round_of errno next)
with_message errno message junk (some id, c) = do
  calls ← bridge_socket_on_message c.calls message id junk
  result ← end_recv buffer_size id (record c { calls = calls })
  on_result errno result

-- A round of `process_recv`, in which the network thread delivers `message` while the call waits;
-- `junk` is the unspecified number that stands for an errno in the answer to a broken message. An
-- exception of `SendEx` leaves the thread.
unfoldable pub recv_round : SendEx → ℕ → List ℕ → ℕ → Client → Outcome Round
recv_round send_ex errno message junk c = do
  begun ← begin_recv send_ex c.sock buffer_size 0 c
  with_message errno message junk begun

abbrev pub go_on : Round → (ℕ → Client → Outcome Round) → Outcome Round
go_on (goes_on errno c) rest = rest errno c
go_on (ended errno c) rest = ok (ended errno c)
go_on (in_call c) rest = ok (in_call c)

-- The loop of `process_recv`, over the messages that come in.
unfoldable pub process_recv : SendEx → List (List ℕ) → ℕ → ℕ → Client → Outcome Round
process_recv send_ex [] junk errno c = ok (goes_on errno c)
process_recv send_ex (message ∷ messages) junk errno c = do
  round ← recv_round send_ex errno message junk c
  go_on round (process_recv send_ex messages junk)

-- `recv3`
unfoldable pub recv3 : Client → ℕ → Outcome ReadStep
recv3 c len = recv_from_recv_proxy_ctx c.recv_ctx len
