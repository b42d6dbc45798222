-- ===== src/Proxy/Functions/Laws.antt =====
-- A call is answered, whatever else is pending.
use zktls_bench.Prelude.{
  ◌^◌, ℕ, ◌+◌, ◌<◌, ◌≤◌, ◌≡◌, refl, Bool, true, false, none, some, List, [], ◌∷◌, ◌++◌, ltb, ◌==◌,
  if◌then◌else◌, length, take, drop, arith, All,
}
use zktls_bench.Proxy.Calls.{
  with_call, new_call, too_few, completed, CallResult, Calls, normal, allocate_call_result,
  put_call_id, pop_call_result, answer_or_error, complete, bridge_socket_on_message,
  wait_for_call_result, free_call_result,
}
use zktls_bench.Proxy.Functions.{SendEx, begin_call, end_call, returns}
use zktls_bench.Prelude.Bytes.{from_le}
use zktls_bench.Errors.{ok}
use zktls_bench.Proxy.SendProxy.{append_node}
use zktls_bench.Proxy.Requests.{Client, check_network}

-- The calls in the list were given their ids.
abbrev pub IsFresh : Calls → Type 0
IsFresh c = All (λ b. b.call_id < c.next_id) c.call_result_head

pop-append_node :
    (id : ℕ) (bs : List CallResult) (b : CallResult)
    → All (λ x. x.call_id < id) bs
    → b.call_id ≡ id
    → pop_call_result id (append_node bs b) ≡ some (b, bs)
unfolding pop_call_result append_node
pop-append_node id [] b h e = let same : (b.call_id == id) ≡ true = ground arith in rw same refl
pop-append_node id (x ∷ xs) b h e =
    let other : (x.call_id == id) ≡ false = ground (arith, h.0) in
    rw (other, pop-append_node id xs b h.1 e) refl

-- A call of `allocate_call_result`, and its id for the network thread.
abbrev pub begun : ℕ → Calls → Calls
begun expected c = put_call_id (with_call c expected) c.next_id

-- A call with its answer.
abbrev pub answered_call : ℕ → List ℕ → CallResult
answered_call id bytes = record {
  call_id = id;
  operation_completed = completed;
  bytes = length bytes;
  answer = bytes;
}

abbrev pub with_answer : List ℕ → Calls → Calls
with_answer bytes c = record c {
  next_id = c.next_id + 1;
  call_ids = append_node c.call_ids c.next_id;
  answered = answered_call c.next_id bytes ∷ c.answered;
}

-- The calls behind one that was begun, answered and freed.
abbrev pub served : Calls → Calls
served c = record c {
  next_id = c.next_id + 1;
  call_ids = append_node c.call_ids c.next_id;
  freed = c.next_id ∷ c.freed;
}

-- An answer, as the proxy sends it: at least a header, and what the call expects, and less than 2 GiB.
pub record Answers (bytes : List ℕ) (expected id : ℕ) : Type 0 where
  pub call_id : from_le (take 4 bytes) ≡ id
  pub whole_header : 12 ≤ length bytes
  pub enough : expected ≤ length bytes
  pub an_int : length bytes < 2 ^ 31

whole_answer :
    (bytes : List ℕ) (id errno : ℕ) → 12 ≤ length bytes → answer_or_error bytes id errno ≡ bytes
unfolding answer_or_error
whole_answer bytes id errno h =
    let whole : ltb (length bytes) 12 ≡ false = ground (arith, h) in rw whole refl

own_call :
    (c : Calls) (bytes : List ℕ)
    → pop_call_result c.next_id (with_answer bytes c).answered
      ≡ some (answered_call c.next_id bytes, c.answered)
unfolding pop_call_result
own_call c bytes = let same : (c.next_id == c.next_id) ≡ true = ground arith in rw same refl

-- The answer comes in, whichever calls the network thread is to serve.
pub message-queued :
    (c : Calls) (expected : ℕ) (call_ids bytes : List ℕ) (id errno : ℕ)
    → IsFresh c
    → Answers bytes expected c.next_id
    → bridge_socket_on_message (record (begun expected c) { call_ids = call_ids }) bytes id errno
      ≡ ok (record (with_answer bytes c) { call_ids = call_ids })
unfolding bridge_socket_on_message complete allocate_call_result put_call_id
message-queued c expected call_ids bytes id errno f a =
    let enough : too_few (length bytes) expected ≡ false = ground (arith, a.enough, a.an_int) in
    let own : CallResult = new_call c.next_id expected in
    let found = pop-append_node c.next_id c.call_result_head own f refl in
    rw
      (
        whole_answer bytes id errno a.whole_header,
        a.call_id,
        found,
        bridge_socket_on_message,
        whole_answer bytes id errno a.whole_header,
        complete,
        enough,
      )
      refl

pub message-begun :
    (c : Calls) (expected : ℕ) (bytes : List ℕ) (id errno : ℕ)
    → IsFresh c
    → Answers bytes expected c.next_id
    → bridge_socket_on_message (begun expected c) bytes id errno ≡ ok (with_answer bytes c)
unfolding put_call_id allocate_call_result
message-begun c expected = message-queued c expected (append_node c.call_ids c.next_id)

pub wait-answered :
    (c : Calls) (bytes : List ℕ)
    → wait_for_call_result (with_answer bytes c) c.next_id
      ≡ (normal (answered_call c.next_id bytes), with_answer bytes c)
unfolding wait_for_call_result
wait-answered c bytes = rw (own_call c bytes, wait_for_call_result) refl

pub free-answered :
    (c : Calls) (bytes : List ℕ) → free_call_result (with_answer bytes c) c.next_id ≡ ok (served c)
unfolding free_call_result
free-answered c bytes = rw (own_call c bytes, free_call_result) refl

pub served-IsFresh : (c : Calls) → IsFresh c → IsFresh (served c)
served-IsFresh c f = go c.call_result_head f
  where
    go :
        (bs : List CallResult)
        → All (λ b. b.call_id < c.next_id) bs
        → All (λ b. b.call_id < c.next_id + 1) bs
    go [] h = tt
    go (b ∷ bs) h = (omega (arith, h.0), go bs h.1)

-- The network works, for a call with the given request.
pub record Works (send_ex : SendEx) (packet : List ℕ) (c : Client) : Type 0 where
  pub fresh : IsFresh c.calls
  pub numbered : c.calls.next_id < 0x7fff_ffff
  pub checked : check_network c ≡ ok tt
  pub sendable : send_ex packet ≡ ok tt

-- A client whose call waits for its answer.
abbrev pub asked : ℕ → List ℕ → Client → Client
asked expected packet c = record c {
  calls = begun expected c.calls;
  sent = c.sent ++ (packet ∷ []);
}

-- The same behind the call.
abbrev pub behind_call : List ℕ → Client → Client
behind_call packet c = record c { calls = served c.calls; sent = c.sent ++ (packet ∷ []) }

-- The fields of an answer behind its id.
abbrev pub ret_in : List ℕ → ℕ
ret_in bytes = from_le (take 4 (drop 4 bytes))

abbrev pub errno_in : List ℕ → ℕ
errno_in bytes = from_le (take 4 (drop 8 bytes))

pub allocate_call_result_lem :
    (c : Calls) (expected : ℕ)
    → c.next_id < 0x7fff_ffff
    → allocate_call_result c expected ≡ ok (c.next_id, with_call c expected)
unfolding allocate_call_result
allocate_call_result_lem c expected h =
    let fits : ltb c.next_id 0x7fff_ffff ≡ true = ground (arith, h) in rw fits refl

pub begin_call-asked :
    (send_ex : SendEx) (expected : ℕ) (request : ℕ → List ℕ) (c : Client)
    → Works send_ex (request c.calls.next_id) c
    → begin_call send_ex expected request c
      ≡ (ok c.calls.next_id, asked expected (request c.calls.next_id) c)
unfolding begin_call check_network
begin_call-asked send_ex expected request c w =
    rw (allocate_call_result_lem c.calls expected w.numbered, w.checked, w.sendable) refl

pub end_call-answer :
    (failed : ℕ → Bool) (expected : ℕ) (packet : List ℕ) (c : Client) (bytes : List ℕ)
    → end_call failed c.calls.next_id
        (record (asked expected packet c) { calls = with_answer bytes c.calls })
      ≡ ok (
        returns (ret_in bytes) (if failed (ret_in bytes) then some (errno_in bytes) else none),
        behind_call packet c,
      )
unfolding end_call
end_call-answer failed expected packet c bytes =
    rw (wait-answered c.calls bytes, free-answered c.calls bytes) refl
