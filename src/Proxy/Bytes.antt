-- ===== src/Proxy/Bytes.antt =====
-- The count of bytes that `WaitForBytes` of network/proxy_client.cpp waits for.
use zktls_bench.Prelude.{
  ℕ, ◌+◌, ◌^◌, ◌<◌, ◌≡◌, refl, Bool, true, false, not, ◌&&◌, List, [], ◌∷◌, ltb, leb, if◌then◌else◌,
  arith,
}
use zktls_bench.Errors.{Outcome, ok, err, network_error}
use zktls_bench.Ws.SendBuffer.{add64}

pub record ByteCount : Type 0 where
  pub recv_bytes : ℕ
  pub minimal_bytes : ℕ
  pub need_wait : Bool
  pub wait_bytes : ℕ
  pub recv_zero : Bool

abbrev pub new_byte_count : ByteCount
new_byte_count = record {
  recv_bytes = 0;
  minimal_bytes = 0;
  need_wait = false;
  wait_bytes = 0;
  recv_zero = false;
}

-- `SetWaitBytes`
unfoldable pub set_wait_bytes : ByteCount → ℕ → ByteCount
set_wait_bytes b n = record b { need_wait = true; wait_bytes = n }

-- The part of `send3` that begins a new count.
unfoldable pub start_count : ByteCount → ByteCount
start_count b =
    if b.need_wait
    then record b { recv_bytes = 0; minimal_bytes = b.wait_bytes; need_wait = false }
    else b

-- `OnRecvBytes`, with whether it wakes the waiting thread.
unfoldable pub on_recv_bytes : ByteCount → ℕ → Bool × ByteCount
on_recv_bytes b num_bytes =
    let sum = add64 b.recv_bytes num_bytes in
    (leb b.minimal_bytes sum, record b { recv_bytes = sum })

-- The end of `process_recv`.
unfoldable pub end_count : ByteCount → ByteCount
end_count b = record b { recv_zero = true }

pub data Wait : Type 0 where
  goes_on : Wait
  waits : Wait

-- `WaitForBytes`, up to where it would wait.
unfoldable pub wait_for_bytes : ByteCount → Outcome Wait
wait_for_bytes b =
    if not b.recv_zero && ltb b.recv_bytes b.minimal_bytes
    then ok waits
    else if ltb b.recv_bytes b.minimal_bytes
    then err (network_error "peer close while wait for bytes")
    else ok goes_on

abbrev pub sum : List ℕ → ℕ
sum [] = 0
sum (n ∷ ns) = n + sum ns

abbrev pub on_all : ByteCount → List ℕ → ByteCount
on_all b [] = b
on_all b (n ∷ ns) = on_all (on_recv_bytes b n).1 ns

on_all_lem :
    (ns : List ℕ) (b : ByteCount)
    → b.recv_bytes + sum ns < 2 ^ 64
    → on_all b ns ≡ record b { recv_bytes = b.recv_bytes + sum ns }
unfolding on_recv_bytes
on_all_lem [] b h = ground arith
on_all_lem (n ∷ ns) b h =
    let e : add64 b.recv_bytes n ≡ b.recv_bytes + n = omega arith in
    let f : b.recv_bytes + n + sum ns ≡ b.recv_bytes + (n + sum ns) = omega arith in
    rw (e, on_all_lem ns (record b { recv_bytes = b.recv_bytes + n }) (omega arith), f) refl

choice :
    (closed : Bool) (s n : ℕ)
    → (if not closed && ltb s n
        then ok waits
        else if ltb s n
        then err (network_error "peer close while wait for bytes")
        else ok goes_on)
      ≡ (if leb n s
          then ok goes_on
          else if closed
          then err (network_error "peer close while wait for bytes")
          else ok waits)
choice true s n = ground arith
choice false s n = ground arith

-- From the send after `SetWaitBytes(n)` on: when bytes have come in, in any pieces, `WaitForBytes`
-- goes on if they are at least `n`; if they are fewer it waits while the peer is there, and throws
-- once the peer has closed. The pieces add up to less than 2^64.
pub wait_for_bytes-on_all :
    (b : ByteCount) (n : ℕ) (ns : List ℕ)
    → sum ns < 2 ^ 64
    → wait_for_bytes (on_all (start_count (set_wait_bytes b n)) ns) ≡ (
        if leb n (sum ns)
        then ok goes_on
        else if b.recv_zero
        then err (network_error "peer close while wait for bytes")
        else ok waits)
unfolding wait_for_bytes start_count set_wait_bytes
wait_for_bytes-on_all b n ns h =
    let started : ByteCount = record b {
      recv_bytes = 0;
      minimal_bytes = n;
      need_wait = false;
      wait_bytes = n;
    } in
    let from_zero : 0 + sum ns ≡ sum ns = omega arith in
    rw (on_all_lem ns started (omega arith), from_zero) (choice b.recv_zero (sum ns) n)
