-- ===== src/Proxy/Functions/Addresses.antt =====
-- The answer of `getaddrinfo3` of network/proxy_client.cpp: the addresses of a host.
pub mod Laws
use mathlib.Core.List.{map}
use zktls_bench.Prelude.{
  ℕ, zero, suc, ◌+◌, ◌^◌, ◌<◌, ◌≤◌, ◌≡◌, refl, Bool, true, false, ◌&&◌, Option, none, some, List,
  [], ◌∷◌, ◌++◌, ltb, ◌==◌, if◌then◌else◌, length, take, drop, replicate, arith, All, concat,
  length-append, take_append, drop_append, drop-drop, sym, ◌∙◌, ap, ◌-◌, ◌≢◌, append_assoc,
  length-replicate,
}
use zktls_bench.Prelude.Bytes.{le, from_le, from_le-le}
use zktls_bench.Prelude.Text.{c_string}
use zktls_bench.Errors.{Outcome, ok, err, fault, stuck, ◌>>=◌, or_fault}
use zktls_bench.Proxy.Calls.{
  CallResult, Calls, Waited, normal, gave_up, waits, wait_for_call_result, free_call_result,
}
use zktls_bench.Proxy.Requests.{Client}
use zktls_bench.Proxy.Functions.{
  ret_of, errno_of, is_failure, minus_one, CallReturn, returns, still_waits,
}

-- One `addrinfo` of the list that is passed back.
pub record Addrinfo : Type 0 where
  pub ai_flags : ℕ
  pub ai_family : ℕ
  pub ai_socktype : ℕ
  pub ai_protocol : ℕ
  pub ai_addr : List ℕ
  pub ai_canonname : Option (List ℕ)

abbrev pub addrinfo_at : List ℕ → ℕ → Option (List ℕ) → Addrinfo
addrinfo_at bytes ai_addrlen canonname = record {
  ai_flags = from_le (take 4 bytes);
  ai_family = from_le (take 4 (drop 4 bytes));
  ai_socktype = from_le (take 4 (drop 8 bytes));
  ai_protocol = from_le (take 4 (drop 12 bytes));
  ai_addr = take ai_addrlen (drop 20 bytes);
  ai_canonname = canonname;
}

abbrev pub addrlen_of : List ℕ → ℕ
addrlen_of bytes = from_le (take 4 (drop 16 bytes))

-- The loop over `addrCount` results. A result that the answer does not hold is read behind its end.
unfoldable pub read_addrinfos : ℕ → Option (List ℕ) → List ℕ → Outcome (List Addrinfo)
read_addrinfos zero canonname bytes = ok []
read_addrinfos (suc count) canonname bytes =
    let rest = read_addrinfos count none (drop (20 + addrlen_of bytes) bytes) in
    if ltb (length bytes) (20 + addrlen_of bytes)
    then fault
    else (do results ← rest; ok (addrinfo_at bytes (addrlen_of bytes) canonname ∷ results))

-- What `*res` is left as: not written, a null pointer, a pointer to no memory, which is what malloc
-- gives for no results, or the list.
pub data Passed : Type 0 where
  unwritten null dangling : Passed
  addresses : List Addrinfo → Passed

-- The first result has the name, a text in the answer.
abbrev pub named_results : ℕ → List ℕ → Outcome Passed
named_results zero bytes = ok dangling
named_results (suc count) bytes = do
  name ← or_fault (c_string (drop 12 bytes))
  results ← read_addrinfos (suc count) (some name) (drop 2064 bytes)
  ok (addresses results)

abbrev pub results_of : CallResult → Outcome Passed
results_of b = named_results (from_le (take 4 (drop 2060 b.answer))) b.answer

-- What `getaddrinfo3` returns and passes back, once its call is answered.
abbrev pub addresses_by : Bool → CallResult → Outcome (CallReturn × Passed)
addresses_by res b =
    if is_failure (ret_of b)
    then ok (returns (ret_of b) (some (errno_of b)), if res then null else unwritten)
    else if res
    then (do results ← results_of b; ok (returns (ret_of b) none, results))
    else ok (returns (ret_of b) none, unwritten)

abbrev pub end_addresses : Bool → Waited → Calls → Client → Outcome ((CallReturn × Passed) × Client)
end_addresses res (normal b) calls c = do
  result ← addresses_by res b
  calls' ← free_call_result calls b.call_id
  ok (result, record c { calls = calls' })
end_addresses res gave_up calls c =
    ok ((returns minus_one none, unwritten), record c { calls = calls })
end_addresses res waits calls c = ok ((still_waits, unwritten), record c { calls = calls })

-- The part of `getaddrinfo3` behind `wait_for_call_result`; `res` says whether results are asked for.
unfoldable pub end_getaddrinfo3 : Bool → ℕ → Client → Outcome ((CallReturn × Passed) × Client)
end_getaddrinfo3 res id c =
    let (waited, calls) = wait_for_call_result c.calls id in end_addresses res waited calls c
