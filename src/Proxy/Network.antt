-- ===== src/Proxy/Network.antt =====
-- The thread `process_network` of network/proxy_client.cpp: it receives the answer of one call after
-- the other, in the order in which they were waited for.
pub mod Laws
use zktls_bench.Prelude.{ℕ, Bool, true, false, List, [], ◌∷◌, if◌then◌else◌}
use zktls_bench.Errors.{Outcome, ok, err, fault, stuck, ◌>>=◌}
use zktls_bench.Ws.Channel.{Channel}
use zktls_bench.Ws.Recv.{RecvBuffer, RecvCtx}
use zktls_bench.Ws.Message.{recv_chunk}
use zktls_bench.Proxy.Calls.{Calls, bridge_socket_on_message}

-- `network_recv_ctx`, the channel's stream and `waitNextCallId`.
pub record Network (S : Type 0) : Type 0 where
  pub network_recv_ctx : RecvCtx
  pub channel_stream : S
  pub wait_next_call_id : Bool

-- How a round of the thread ends.
pub data NetworkRound (S : Type 0) : Type 0 where
  goes_on : Network S → Calls → NetworkRound S
  waits : NetworkRound S
  ended : Calls → NetworkRound S

module _ (ch : Channel) where
  open ch use {State}

  -- What follows `RecvMessage`; an exception of it ends the thread, and is dropped.
  abbrev pub on_message :
      Network State
      → Calls
      → ℕ
      → ℕ
      → Outcome (RecvBuffer × RecvCtx × State)
      → Outcome (NetworkRound State)
  on_message n c id junk (ok (b, ctx, s)) = do
    c' ← bridge_socket_on_message c b.payload id junk
    ok (goes_on (record n { network_recv_ctx = ctx; channel_stream = s }) c')
  on_message n c id junk (err e) = ok (ended c)
  on_message n c id junk fault = fault
  on_message n c id junk stuck = stuck

  abbrev pub round_by : ℕ → Network State → Calls → List ℕ → ℕ → Outcome (NetworkRound State)
  round_by fuel n c [] junk = ok (if n.wait_next_call_id then waits else ended c)
  round_by fuel n c (id ∷ ids) junk =
      on_message n (record c { call_ids = ids }) id junk
        (recv_chunk ch fuel n.network_recv_ctx id n.channel_stream)

  -- A round of `process_network`, with the fuel of `recv_chunk`; `junk` is the unspecified number that
  -- stands for an errno in the answer to a broken message.
  unfoldable pub process_network : ℕ → Network State → Calls → ℕ → Outcome (NetworkRound State)
  process_network fuel n c junk = round_by fuel n c c.call_ids junk
