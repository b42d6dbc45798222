-- ===== src/Ws/Channel.antt =====
-- What the receivers of network/ws.cpp use of a `ChannelStream`: `RecvEx`, and the kind of
-- connection, after which errors are named. `pending` is what the peer has sent or will send before
-- the connection ends or fails.
use zktls_bench.Prelude.{ℕ, ◌≤◌, ◌<◌, ◌≡◌, List, length, take, drop}
use zktls_bench.Errors.{ConnectionType}

pub record Channel : Type 1 where
  pub State : Type 0
  pub connection_type : ConnectionType
  pub recv_ex : ℕ → State → List ℕ × State
  pub pending : State → List ℕ
  -- A read that the pending bytes can fill is filled from them.
  pub recv_ex-full :
      (n : ℕ) (s : State)
      → n ≤ length (pending s)
      → ((recv_ex n s).0 ≡ take n (pending s)) × (pending (recv_ex n s).1 ≡ drop n (pending s))
  -- Any other read is short.
  pub recv_ex-short : (n : ℕ) (s : State) → length (pending s) < n → length (recv_ex n s).0 < n
