-- ===== src/Proxy/RecvProxy.antt =====
-- `RecvProxyCtx` of network/proxy_client.cpp: the bytes that came from the TLS server, as messages of
-- ascending ids in a receive context.
pub mod Laws
use zktls_bench.Prelude.{
  ℕ, zero, suc, ◌+◌, ◌-◌, ◌%◌, ◌^◌, Bool, true, false, not, ◌&&◌, ◌||◌, Option, none, some, List,
  [], ◌∷◌, ◌++◌, ltb, if◌then◌else◌, length,
}
use zktls_bench.Errors.{Outcome, ok, err, fault, stuck, ◌>>=◌}
use zktls_bench.Ws.SendBuffer.{add64}
use zktls_bench.Ws.Recv.{
  RecvCtx, new_recv_ctx, put_payload_to_recv_ctx, empty_recv_ctx, recv_from_recv_ctx, valid_info,
}

pub record RecvProxyCtx : Type 0 where
  pub inner_ctx : RecvCtx
  pub id : ℕ

abbrev pub new_recv_proxy_ctx : RecvProxyCtx
new_recv_proxy_ctx = record { inner_ctx = new_recv_ctx; id = 0 }

-- `SetRecvProxyCtx`
unfoldable pub set_recv_proxy_ctx : RecvProxyCtx → Bool → RecvProxyCtx
set_recv_proxy_ctx ctx valid =
    let inner = ctx.inner_ctx in
    let closed : RecvCtx = record inner { recv_zero = not valid } in
    record ctx { inner_ctx = closed }

-- `PutToRecvProxyCtx`
unfoldable pub put_to_recv_proxy_ctx : RecvProxyCtx → List ℕ → RecvProxyCtx
put_to_recv_proxy_ctx ctx buf = record ctx {
  inner_ctx = put_payload_to_recv_ctx ctx.inner_ctx (add64 ctx.id 1) buf;
  id = add64 ctx.id 1;
}

-- How a call of `RecvFromRecvProxyCtx` goes on: it returns, or it waits for bytes or the end.
pub data ReadStep : Type 0 where
  returns waits : List ℕ → RecvCtx → ReadStep

-- The loop, up to where it would wait. Each round that reads nothing is one of fuel, too.
unfoldable pub recv_loop : ℕ → RecvCtx → ℕ → List ℕ → Outcome ReadStep
recv_loop zero c len got = stuck
recv_loop (suc fuel) c len got =
    if ltb (length got) len
    then if not (valid_info c.info) && not c.recv_zero
      then ok (waits got c)
      else if c.recv_zero && empty_recv_ctx c
      then ok (returns got c)
      else (do
        (bytes, c') ← recv_from_recv_ctx c (len - length got)
        recv_loop fuel c' len (got ++ bytes))
    else ok (returns got c)

-- `RecvFromRecvProxyCtx`: a read of `len` bytes takes at most `len` rounds.
unfoldable pub recv_from_recv_proxy_ctx : RecvProxyCtx → ℕ → Outcome ReadStep
recv_from_recv_proxy_ctx ctx len = recv_loop (suc len) ctx.inner_ctx len []
