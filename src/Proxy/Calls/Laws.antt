-- ===== src/Proxy/Calls/Laws.antt =====
-- No call is lost and none is freed twice, in whatever order the threads take their steps.
use zktls_bench.Prelude.{ℕ, ◌+◌, ◌<◌, ◌≡◌, Bool, true, false, ◌&&◌, some, List, [], ◌∷◌, ltb, ◌==◌}
use zktls_bench.Errors.{Outcome, ok}
use zktls_bench.Proxy.Calls.{
  CallResult, Calls, new_calls, allocate_call_result, put_call_id, pop_call_result,
  bridge_socket_on_message, wait_for_call_result, free_call_result, cancel_wait_for_call_result,
  call_ids_of,
}

abbrev pub one_if : Bool → ℕ
one_if true = 1
one_if false = 0

-- How often a number stands in a list.
abbrev pub count : ℕ → List ℕ → ℕ
count id [] = 0
count id (x ∷ xs) = one_if (x == id) + count id xs

-- How often a call is in the list, owned by its thread, or freed.
abbrev pub total : ℕ → Calls → ℕ
total id c =
    count id (call_ids_of c.call_result_head) + count id (call_ids_of c.answered) + count id c.freed

-- Each id given out so far is accounted for once, and no other.
pub record IsAccounted (c : Calls) : Type 0 where
  pub once : (id : ℕ) → total id c ≡ one_if (ltb 0 id && ltb id c.next_id)
  pub next : 0 < c.next_id

record Popped (id : ℕ) (bs : List CallResult) : Type 0 where
  b : CallResult
  others : List CallResult
  found : pop_call_result id bs ≡ some (b, others)
  same : b.call_id ≡ id
  counts : (j : ℕ) → count j (call_ids_of bs) ≡ one_if (id == j) + count j (call_ids_of others)

-- The steps of the threads; a message is one that the client takes in without a fault.
pub data Step : Calls → Calls → Type 0 where
  allocate : (c c' : Calls) (n id : ℕ) → allocate_call_result c n ≡ ok (id, c') → Step c c'
  queue : (c : Calls) (id : ℕ) → Step c (put_call_id c id)
  message :
      (c c' : Calls) (bytes : List ℕ) (id errno : ℕ)
      → bridge_socket_on_message c bytes id errno ≡ ok c'
      → Step c c'
  wait : (c : Calls) (id : ℕ) → Step c (wait_for_call_result c id).1
  free : (c c' : Calls) (id : ℕ) → free_call_result c id ≡ ok c' → Step c c'
  cancel : (c : Calls) → Step c (cancel_wait_for_call_result c)

pub data Reachable : Calls → Type 0 where
  start : Reachable new_calls
  next_step : (c c' : Calls) → Reachable c → Step c c' → Reachable c'

-- An answer that is taken in.
record Taken (result : Outcome Calls) : Type 0 where
  c' : Calls
  taken : result ≡ ok c'
  accounted : IsAccounted c'
