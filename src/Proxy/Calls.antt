-- ===== src/Proxy/Calls.antt =====
-- The calls of network/proxy_client.cpp that wait for an answer of the proxy. A call stands in the
-- list `callResultHead` until its answer comes; then it belongs to the thread that waits for it. A
-- thread that gives up leaves the call in the list, for the answer to free it.
pub mod Laws
use zktls_bench.Prelude.{
  ℕ, zero, suc, ◌+◌, ◌%◌, ◌^◌, ◌||◌, leb, Bool, true, false, Option, none, some, List, [], ◌∷◌,
  ◌++◌, ltb, ◌==◌, if◌then◌else◌, length, take, drop,
}
use zktls_bench.Prelude.Bytes.{from_le, le}
use zktls_bench.Errors.{Outcome, ok, fault, ◌>>=◌}
use zktls_bench.Proxy.SendProxy.{append_node}

-- `operationCompleted`: 0, 1 and 2.
pub data Operation : Type 0 where
  pending completed abandoned : Operation

-- `PosixSocketCallResult`; `bytes` is the number expected, and `answer` its data once it has come.
pub record CallResult : Type 0 where
  pub call_id : ℕ
  pub operation_completed : Operation
  pub bytes : ℕ
  pub answer : List ℕ

-- `call_result_head` is the list; `answered` are the calls that their threads own; `freed` are the
-- ids of the calls that were freed, the last first; `call_ids` is the queue of the network thread.
pub record Calls : Type 0 where
  pub call_result_head : List CallResult
  pub next_id : ℕ
  pub call_ids : List ℕ
  pub wait_operation_completed : Bool
  pub answered : List CallResult
  pub freed : List ℕ

abbrev pub new_calls : Calls
new_calls = record {
  call_result_head = [];
  next_id = 1;
  call_ids = [];
  wait_operation_completed = true;
  answered = [];
  freed = [];
}

abbrev pub new_call : ℕ → ℕ → CallResult
new_call id expected_bytes = record {
  call_id = id;
  operation_completed = pending;
  bytes = expected_bytes;
  answer = [];
}

abbrev pub with_call : Calls → ℕ → Calls
with_call c expected_bytes = record c {
  next_id = c.next_id + 1;
  call_result_head = append_node c.call_result_head (new_call c.next_id expected_bytes);
}

-- `allocate_call_result`, with malloc not failing: the id of the call. The overflow of the int
-- `nextId` is undefined.
unfoldable pub allocate_call_result : Calls → ℕ → Outcome (ℕ × Calls)
allocate_call_result c expected_bytes =
    if ltb c.next_id 0x7fff_ffff then ok (c.next_id, with_call c expected_bytes) else fault

-- `PutCallId`
unfoldable pub put_call_id : Calls → ℕ → Calls
put_call_id c id = record c { call_ids = append_node c.call_ids id }

-- The first call with the id, and the list without it.
unfoldable pub pop_call_result : ℕ → List CallResult → Option (CallResult × List CallResult)
pop_call_result id [] = none
pop_call_result id (b ∷ bs) =
    let rest = pop_call_result id bs in
    if b.call_id == id
    then some (b, bs)
    else elim rest [ none ↦ none | some (found, others) ↦ some (found, b ∷ others) ]

-- The bytes of an answer, or those of the error that stands for one without a whole header; what its
-- third field holds is not specified, and nobody is to read it.
unfoldable pub answer_or_error : List ℕ → ℕ → ℕ → List ℕ
answer_or_error bytes call_id errno =
    if ltb (length bytes) 12 then le 4 call_id ++ (le 4 0xffff_ffff ++ le 4 errno) else bytes

-- `(int)numBytes < bytes`
abbrev pub too_few : ℕ → ℕ → Bool
too_few num_bytes bytes = leb 0x8000_0000 (num_bytes % 2 ^ 32) || ltb (num_bytes % 2 ^ 32) bytes

-- The call that an answer is for, with the answer.
unfoldable pub complete : Calls → List CallResult → CallResult → List ℕ → Outcome Calls
complete c others b bytes =
    if too_few (length bytes) b.bytes then fault else elim b.operation_completed [
      | completed ↦ fault
      | pending ↦ ok (record c {
        call_result_head = others;
        answered =
            record b { operation_completed = completed; bytes = length bytes; answer = bytes }
            ∷ c.answered;
      })
      | abandoned ↦ ok (record c { call_result_head = others; freed = b.call_id ∷ c.freed })
    ]

-- `BridgeSocketOnMessage`; a failed assert is a fault.
unfoldable pub bridge_socket_on_message : Calls → List ℕ → ℕ → ℕ → Outcome Calls
bridge_socket_on_message c bytes call_id errno =
    let whole = answer_or_error bytes call_id errno in
    elim (pop_call_result (from_le (take 4 whole)) c.call_result_head) [
      | none ↦ fault
      | some (b, others) ↦ complete c others b whole
    ]

-- The call with the id is no longer waited for.
unfoldable pub abandon : ℕ → List CallResult → List CallResult
abandon id [] = []
abandon id (b ∷ bs) =
    if b.call_id == id then record b { operation_completed = abandoned } ∷ bs else b ∷ abandon id bs

-- What `wait_for_call_result` comes to, behind its `PutCallId`: its call is answered, or it gives up,
-- or it waits.
pub data Waited : Type 0 where
  normal : CallResult → Waited
  gave_up waits : Waited

unfoldable pub wait_for_call_result : Calls → ℕ → Waited × Calls
wait_for_call_result c id = elim (pop_call_result id c.answered) [
  | some (b, others) ↦ (normal b, c)
  | none ↦
      if c.wait_operation_completed
      then (waits, c)
      else (gave_up, record c { call_result_head = abandon id c.call_result_head })
]

-- `free_call_result` by the thread that owns the call. A call that no thread owns is freed twice, or
-- still in the list.
unfoldable pub free_call_result : Calls → ℕ → Outcome Calls
free_call_result c id = elim (pop_call_result id c.answered) [
  | none ↦ fault
  | some (b, others) ↦ ok (record c { answered = others; freed = id ∷ c.freed })
]

-- What each caller does behind its wait: it frees the call if the wait was normal.
abbrev pub free_waited : Waited × Calls → Outcome Calls
free_waited (normal b, c) = free_call_result c b.call_id
free_waited (gave_up, c) = ok c
free_waited (waits, c) = ok c

unfoldable pub cancel_wait_for_call_result : Calls → Calls
cancel_wait_for_call_result c = record c { wait_operation_completed = false }

abbrev pub call_ids_of : List CallResult → List ℕ
call_ids_of [] = []
call_ids_of (b ∷ bs) = b.call_id ∷ call_ids_of bs

unfoldable pub pop_all_call_results : Calls → Calls
pop_all_call_results c = record c {
  call_result_head = [];
  freed = call_ids_of c.call_result_head ++ c.freed;
}
