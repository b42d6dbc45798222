-- ===== src/Proxy/Functions/Requests.antt =====
-- `socket3`, `shutdown3` and `connect3` from the request to what they return.
use zktls_bench.Prelude.{
  ℕ, zero, suc, ◌^◌, ◌<◌, ◌≡◌, refl, ◌∙◌, true, false, Bool-cases, inl, inr, none, some, List, [],
  ◌∷◌, ltb, leb, ◌==◌, if◌then◌else◌, length, take, drop, arith,
}
use zktls_bench.Prelude.Bytes.{from_le, from_le-le}
use zktls_bench.Errors.{ok}
use zktls_bench.Proxy.Calls.{bridge_socket_on_message}
use zktls_bench.Proxy.Requests.{Client}
use zktls_bench.Proxy.Functions.{
  SendEx, begin_socket3, end_socket3, socket_request, begin_shutdown3, end_shutdown3,
  shutdown_request, CallReturn, returns, is_failure, is_negative,
}
use zktls_bench.Proxy.Functions.Laws.{
  Works, Answers, asked, behind_call, ret_in, errno_in, with_answer, message-begun,
  begin_call-asked, end_call-answer,
}

-- A packet as the proxy reads it: the ints at its front.
abbrev pub ints : ℕ → List ℕ → List ℕ
ints zero packet = []
ints (suc n) packet = from_le (take 4 packet) ∷ ints n (drop 4 packet)

negative_or_not :
    {A : Type 0} (f : CallReturn → A) (bytes : List ℕ)
    → f (
        returns (ret_in bytes) (if is_negative (ret_in bytes) then some (errno_in bytes) else none))
      ≡ f (
          returns
            (ret_in bytes)
            (if ltb (ret_in bytes) 0x8000_0000 then none else some (errno_in bytes)))
negative_or_not f bytes = elim (Bool-cases (ltb (ret_in bytes) 0x8000_0000)) [
  | inl small ↦
      let other : leb 0x8000_0000 (ret_in bytes) ≡ false = ground arith in rw (small, other) refl
  | inr large ↦
      let other : leb 0x8000_0000 (ret_in bytes) ≡ true = ground arith in rw (large, other) refl
]

-- `socket3` over a network that works, whatever other calls are pending, for arguments that are ints:
-- it sends one packet of the next id, the function 1, the domain, the type and the protocol, and waits.
-- When the answer to the id comes in, with a whole header and less than 2 GiB, it returns the number
-- in it, sets errno to the one in it exactly if the number is negative as an int, and leaves the
-- pending calls, which have ids that were given out, as they were and its own freed.
pub socket3_lem :
    (send_ex : SendEx) (domain type protocol : ℕ) (c : Client) (bytes : List ℕ) (id errno : ℕ)
    → domain < 2 ^ 32
    → type < 2 ^ 32
    → protocol < 2 ^ 32
    → Works send_ex (socket_request domain type protocol c.calls.next_id) c
    → Answers bytes 12 c.calls.next_id
    → (packet : List ℕ) × (length packet ≡ 20)
      × (ints 5 packet ≡ c.calls.next_id ∷ 1 ∷ domain ∷ type ∷ protocol ∷ [])
      × (begin_socket3 send_ex domain type protocol c ≡ (ok c.calls.next_id, asked 12 packet c))
      × (bridge_socket_on_message (asked 12 packet c).calls bytes id errno
          ≡ ok (with_answer bytes c.calls))
      × (end_socket3 c.calls.next_id
            (record (asked 12 packet c) { calls = with_answer bytes c.calls })
          ≡ ok (
            returns
                (ret_in bytes)
                (if ltb (ret_in bytes) 0x8000_0000 then none else some (errno_in bytes)),
            behind_call packet c,
          ))
unfolding begin_socket3 end_socket3 socket_request
socket3_lem send_ex domain type protocol c bytes id errno h k l w a = (
  socket_request domain type protocol c.calls.next_id,
  refl,
  rw
      (
        from_le-le 4 c.calls.next_id (omega (arith, w.numbered)),
        from_le-le 4 domain h,
        from_le-le 4 type k,
        from_le-le 4 protocol l,
      )
      refl,
  begin_call-asked send_ex 12 (socket_request domain type protocol) c w,
  message-begun c.calls 12 bytes id errno w.fresh a,
  end_call-answer is_negative 12 (socket_request domain type protocol c.calls.next_id) c bytes
      ∙ negative_or_not
          (λ r. ok (r, behind_call (socket_request domain type protocol c.calls.next_id) c)) bytes,
)

-- What a function returns that fails on every number but 0.
abbrev pub returned : List ℕ → CallReturn
returned bytes =
    if ret_in bytes == 0 then returns 0 none else returns (ret_in bytes) (some (errno_in bytes))

zero_or_failed :
    {A : Type 0} (f : CallReturn → A) (bytes : List ℕ)
    → f (returns (ret_in bytes) (if is_failure (ret_in bytes) then some (errno_in bytes) else none))
      ≡ f (returned bytes)
zero_or_failed f bytes = elim (Bool-cases (ret_in bytes == 0)) [
  | inl e ↦ let z : ret_in bytes ≡ 0 = ground arith in rw z refl
  | inr e ↦ rw e refl
]

-- `shutdown3` over a network that works, whatever other calls are pending, for arguments that are
-- ints: it sends one packet of the next id, the function 3, the socket and the way, and waits. When
-- the answer to the id comes in, with a whole header and less than 2 GiB, it returns the number in
-- it, sets errno to the one in it exactly if the number is not 0, and leaves the pending calls, which
-- have ids that were given out, as they were and its own freed.
pub shutdown3_lem :
    (send_ex : SendEx) (socket how : ℕ) (c : Client) (bytes : List ℕ) (id errno : ℕ)
    → socket < 2 ^ 32
    → how < 2 ^ 32
    → Works send_ex (shutdown_request socket how c.calls.next_id) c
    → Answers bytes 12 c.calls.next_id
    → (packet : List ℕ) × (length packet ≡ 16)
      × (ints 4 packet ≡ c.calls.next_id ∷ 3 ∷ socket ∷ how ∷ [])
      × (begin_shutdown3 send_ex socket how c ≡ (ok c.calls.next_id, asked 12 packet c))
      × (bridge_socket_on_message (asked 12 packet c).calls bytes id errno
          ≡ ok (with_answer bytes c.calls))
      × (end_shutdown3 c.calls.next_id
            (record (asked 12 packet c) { calls = with_answer bytes c.calls })
          ≡ ok (returned bytes, behind_call packet c))
unfolding begin_shutdown3 end_shutdown3 shutdown_request
shutdown3_lem send_ex socket how c bytes id errno h k w a = (
  shutdown_request socket how c.calls.next_id,
  refl,
  rw
      (
        from_le-le 4 c.calls.next_id (omega (arith, w.numbered)),
        from_le-le 4 socket h,
        from_le-le 4 how k,
      )
      refl,
  begin_call-asked send_ex 12 (shutdown_request socket how) c w,
  message-begun c.calls 12 bytes id errno w.fresh a,
  end_call-answer is_failure 12 (shutdown_request socket how c.calls.next_id) c bytes
      ∙ zero_or_failed (λ r. ok (r, behind_call (shutdown_request socket how c.calls.next_id) c))
          bytes,
)

-- The client behind `connect3`: both threads run, on the socket, if the number is 0.
abbrev pub connected : ℕ → List ℕ → Client → Client
connected socket bytes c =
    if ret_in bytes == 0
    then record c { sock = socket; send_thread = true; recv_thread = true }
    else c
