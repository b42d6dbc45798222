-- ===== src/Ws/Message/Chunks.antt =====
-- Receiving chunks by id: frames that come in before the one asked for are kept.
use zktls_bench.Prelude.{
  ℕ, zero, suc, ◌+◌, ◌^◌, ◌<◌, ◌≤◌, ◌≡◌, refl, ap, ◌∙◌, ◌≢◌, true, none, some, List, [], ◌∷◌, ◌++◌,
  leb, length, take, append_assoc, arith, concat, All,
}
use mathlib.Core.List.{map}
use zktls_bench.Prelude.Bytes.{from_le}
use zktls_bench.Errors.{Outcome, ok, ◌>>=◌}
use zktls_bench.Ws.Header.Laws.{header_bytes}
use zktls_bench.Ws.Channel.{Channel}
use zktls_bench.Ws.Recv.{
  RecvBuffer, RecvCtx, put_to_recv_ctx, insert_chunk, recv_chunk_from_recv_ctx, sign_extend,
}
use zktls_bench.Ws.Recv.Chunks.{
  Absent, All-insert_chunk, take_chunk-Absent, take_chunk-insert_chunk,
}
use zktls_bench.Ws.Message.{recv_frame, found_or, put_chunk, recv_chunk}
use zktls_bench.Ws.Message.Header.{FrameRead, recv_frame-header_bytes}

-- The chunk that a payload is: its id is the int at its front.
abbrev pub chunk_of : List ℕ → RecvBuffer
chunk_of payload = record {
  id = sign_extend (from_le (take 4 payload));
  len = length payload;
  payload = payload;
}

abbrev pub chunk_frame : List ℕ → List ℕ
chunk_frame payload = header_bytes (length payload) none ++ payload

-- A payload with room for its id, which is not `id`.
abbrev pub IsOther : ℕ → List ℕ → Type 0
IsOther id p = (4 ≤ length p) × (length p < 2 ^ 62) × ((chunk_of p).id ≢ id)

abbrev pub insert_all : List RecvBuffer → List (List ℕ) → List RecvBuffer
insert_all cs [] = cs
insert_all cs (p ∷ ps) = insert_all (insert_chunk (chunk_of p) cs) ps

module _ (ch : Channel) where
  open ch use {State, recv_ex, pending}

  abbrev pub with_list : RecvCtx → List RecvBuffer → RecvCtx
  with_list ctx cs = record ctx { list = cs }

  -- The chunk that was asked for, with the context and the stream after it.
  pub record ChunkRead (outcome : Outcome (RecvBuffer × RecvCtx × State)) (chunk : RecvBuffer)
      (ctx : RecvCtx) (tail : List ℕ) : Type 0 where
    pub s' : State
    pub result : outcome ≡ ok (chunk, ctx, s')
    pub behind : pending s' ≡ tail

  taken :
      (ctx : RecvCtx) (c : RecvBuffer) (cs : List RecvBuffer)
      → Absent c.id cs
      → recv_chunk_from_recv_ctx (with_list ctx (insert_chunk c cs)) c.id
        ≡ (some c, with_list ctx cs)
  unfolding recv_chunk_from_recv_ctx
  taken ctx c cs h = rw (take_chunk-insert_chunk c cs h) refl

  not_taken :
      (ctx : RecvCtx) (id : ℕ) → Absent id ctx.list → recv_chunk_from_recv_ctx ctx id ≡ (none, ctx)
  unfolding recv_chunk_from_recv_ctx
  not_taken ctx id h = rw (take_chunk-Absent id ctx.list h) refl

  -- A round that does not find the id.
  abbrev again : ℕ → ℕ → State → RecvCtx → Outcome (RecvBuffer × RecvCtx × State)
  again fuel id s ctx =
      recv_frame ch 24 s >>= (λ x. put_chunk ch ctx x.0 >>= (λ c. recv_chunk ch fuel c id x.1))

  frame_put :
      (fuel : ℕ) (ctx : RecvCtx) (id : ℕ) (p : List ℕ) (s : State) {s' : State} {ctx' : RecvCtx}
      → recv_frame ch 24 s ≡ ok (p, s')
      → put_chunk ch ctx p ≡ ok ctx'
      → again fuel id s ctx ≡ recv_chunk ch fuel ctx' id s'
  frame_put fuel ctx id p s e f = rw (e, f) refl

  found_now :
      (fuel : ℕ) (ctx : RecvCtx) (c : RecvBuffer) (cs : List RecvBuffer) (s : State)
      → Absent c.id cs
      → recv_chunk ch (suc fuel) (with_list ctx (insert_chunk c cs)) c.id s
        ≡ ok (c, with_list ctx cs, s)
  unfolding recv_chunk
  found_now fuel ctx c cs s h = ap (λ r. found_or ch r s (again fuel c.id s)) (taken ctx c cs h)

  put_chunk_lem :
      (ctx : RecvCtx) (p : List ℕ)
      → ctx.is_chunk ≡ true
      → 4 ≤ length p
      → put_chunk ch ctx p ≡ ok (with_list ctx (insert_chunk (chunk_of p) ctx.list))
  unfolding put_chunk put_to_recv_ctx
  put_chunk_lem ctx p c l = let long : leb 4 (length p) ≡ true = ground arith in rw (long, c) refl

  -- One round that does not find the id.
  record Round (ctx : RecvCtx) (id : ℕ) (p : List ℕ) (s : State) (more : List ℕ) : Type 0 where
    next : State
    result :
        (fuel : ℕ)
        → recv_chunk ch (suc fuel) ctx id s
          ≡ recv_chunk ch fuel (with_list ctx (insert_chunk (chunk_of p) ctx.list)) id next
    behind : pending next ≡ more

  round :
      (ctx : RecvCtx) (id : ℕ) (p : List ℕ) (s : State) (more : List ℕ)
      → ctx.is_chunk ≡ true
      → Absent id ctx.list
      → 4 ≤ length p
      → length p < 2 ^ 62
      → pending s ≡ chunk_frame p ++ more
      → Round ctx id p s more
  unfolding recv_chunk
  round ctx id p s more c h l k e =
      let read : FrameRead ch 24 p s more =
        recv_frame-header_bytes ch 24 none p s more tt (omega (arith, k)) tt
          (e ∙ append_assoc (header_bytes (length p) none) p more) in
      let put : put_chunk ch ctx p ≡ ok (with_list ctx (insert_chunk (chunk_of p) ctx.list)) =
        put_chunk_lem ctx p c l in
      record {
        next = read.next;
        result = λ fuel.
            ap (λ r. found_or ch r s (again fuel id s)) (not_taken ctx id h)
            ∙ frame_put fuel ctx id p s read.result put;
        behind = read.behind;
      }

  -- `RecvMessage(ctx, id, stream)` in chunk mode, for chunks of less than 2^62 bytes, when no chunk
  -- at hand has the id and it comes in behind chunks of other ids: with fuel for each of them and
  -- two rounds it returns that chunk; the others are kept, put in in the order in which they came;
  -- and nothing behind its frame is read.
  pub recv_chunk-ChunkRead :
      (fuel : ℕ) (ctx : RecvCtx) (p : List ℕ) (ps : List (List ℕ)) (s : State) (tail : List ℕ)
      → ctx.is_chunk ≡ true
      → Absent (chunk_of p).id ctx.list
      → All (IsOther (chunk_of p).id) ps
      → 4 ≤ length p
      → length p < 2 ^ 62
      → pending s ≡ concat (map chunk_frame ps) ++ (chunk_frame p ++ tail)
      → length ps + 1 < fuel
      → ChunkRead
          (recv_chunk ch fuel ctx (chunk_of p).id s)
          (chunk_of p)
          (with_list ctx (insert_all ctx.list ps))
          tail
  recv_chunk-ChunkRead zero ctx p ps s tail c a o l k e f = absurd (omega arith)
  recv_chunk-ChunkRead (suc zero) ctx p ps s tail c a o l k e f = absurd (omega arith)
  recv_chunk-ChunkRead (suc (suc fuel)) ctx p [] s tail c a o l k e f =
      let r : Round ctx (chunk_of p).id p s tail = round ctx (chunk_of p).id p s tail c a l k e in
      record {
        s' = r.next;
        result = r.result (suc fuel) ∙ found_now fuel ctx (chunk_of p) ctx.list r.next a;
        behind = r.behind;
      }
  recv_chunk-ChunkRead (suc (suc fuel)) ctx p (q ∷ ps) s tail c a o l k e f =
      let id : ℕ = (chunk_of p).id in
      let more : List ℕ = concat (map chunk_frame ps) ++ (chunk_frame p ++ tail) in
      let r : Round ctx id q s more =
        round ctx id q s more c a o.0.0 o.0.1 (
          e ∙ append_assoc (chunk_frame q) (concat (map chunk_frame ps)) (chunk_frame p ++ tail)) in
      let there : Absent id (insert_chunk (chunk_of q) ctx.list) =
        All-insert_chunk (λ (b : RecvBuffer). b.id ≢ id) (chunk_of q) ctx.list o.0.2 a in
      let rest =
        recv_chunk-ChunkRead (suc fuel) (with_list ctx (insert_chunk (chunk_of q) ctx.list)) p ps
          r.next tail c there o.1 l k r.behind (omega arith) in
      record { s' = rest.s'; result = r.result (suc fuel) ∙ rest.result; behind = rest.behind }
