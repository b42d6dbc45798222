-- ===== src/Ws/Recv/Queue.antt =====
-- The receive context as a byte queue: messages that come in with the next ids are read back as one
-- stream of bytes.
use zktls_bench.Prelude.{
  ℕ, ◌+◌, ◌^◌, ◌<◌, ◌≤◌, ◌≡◌, refl, ap, sym, subst, ◌∙◌, true, false, List, [], ◌∷◌, ◌++◌,
  append_assoc, append-nil, length, drop, arith,
}
use zktls_bench.Ws.Recv.{
  RecvBuffer, RecvInfo, RecvCtx, new_recv_ctx, insert_chunk, start_next, info_or_new,
  put_to_recv_ctx,
}

-- Nodes whose ids run from behind `prev` to `last`, each with a payload that is not empty and of the
-- length that it says.
abbrev pub Consecutive : ℕ → List RecvBuffer → ℕ → Type 0
Consecutive prev [] last = prev ≡ last
Consecutive prev (c ∷ cs) last =
    (c.id ≡ prev + 1) × (c.len ≡ length c.payload) × (0 < c.len) × Consecutive c.id cs last

abbrev pub payloads : List RecvBuffer → List ℕ
payloads [] = []
payloads (c ∷ cs) = c.payload ++ payloads cs

-- The message that is being read is the first node, and `rest` is what is still to be read.
abbrev pub Current : RecvInfo → List RecvBuffer → List ℕ → Type 0
Current info [] rest = (info.valid ≡ false) × (rest ≡ [])
Current info (c ∷ cs) rest =
    (info.valid ≡ true)
    × (info.len ≡ c.len)
    × (info.payload ≡ c.payload)
    × (info.offset < info.len)
    × (rest ≡ drop info.offset c.payload ++ payloads cs)

-- The context holds the bytes `rest`, and the last message that came in has the id `last`.
pub record IsQueue (ctx : RecvCtx) (last : ℕ) (rest : List ℕ) : Type 0 where
  pub not_chunk : ctx.is_chunk ≡ false
  pub ids : Consecutive (info_or_new ctx.info).prev_id ctx.list last
  pub current : Current (info_or_new ctx.info) ctx.list rest

-- A new context holds nothing, and waits for the message 1.
pub new_recv_ctx-IsQueue : IsQueue new_recv_ctx 0 []
new_recv_ctx-IsQueue = record { not_chunk = refl; ids = refl; current = (refl, refl) }

pub last_bound : (prev last : ℕ) (cs : List RecvBuffer) → Consecutive prev cs last → prev ≤ last
last_bound prev last [] h = omega arith
last_bound prev last (c ∷ cs) h = omega (arith, last_bound c.id last cs h.3)

-- The next message goes to the end of the list.
insert_last :
    (c : RecvBuffer) (prev last : ℕ) (cs : List RecvBuffer)
    → Consecutive prev cs last
    → last < c.id
    → insert_chunk c cs ≡ cs ++ (c ∷ [])
unfolding insert_chunk
insert_last c prev last [] h lt = refl
insert_last c prev last (b ∷ bs) h lt =
    ground (arith, last_bound b.id last bs h.3, insert_last c b.id last bs h.3)

Consecutive-append :
    (c : RecvBuffer) (prev last : ℕ) (cs : List RecvBuffer)
    → Consecutive prev cs last
    → c.id ≡ last + 1
    → c.len ≡ length c.payload
    → 0 < c.len
    → Consecutive prev (cs ++ (c ∷ [])) c.id
Consecutive-append c prev last [] h e l p = (omega arith, l, p, refl)
Consecutive-append c prev last (b ∷ bs) h e l p =
    (h.0, h.1, h.2, Consecutive-append c b.id last bs h.3 e l p)

payloads-append : (xs ys : List RecvBuffer) → payloads (xs ++ ys) ≡ payloads xs ++ payloads ys
payloads-append [] ys = refl
payloads-append (c ∷ xs) ys =
    ap (◌++◌ c.payload) (payloads-append xs ys)
    ∙ sym (append_assoc c.payload (payloads xs) (payloads ys))

-- Taking up the next message, if none is being read.
pub start_next-prev_id :
    (info : RecvInfo) (cs : List RecvBuffer) → (start_next info cs).prev_id ≡ info.prev_id
unfolding start_next
start_next-prev_id info [] = refl
start_next-prev_id info (c ∷ cs) = ground arith

-- on an idle context
pub start_idle :
    (info : RecvInfo) (cs : List RecvBuffer) (last : ℕ)
    → info.valid ≡ false
    → Consecutive info.prev_id cs last
    → last < 2 ^ 64
    → Current (start_next info cs) cs (payloads cs)
unfolding start_next
start_idle info [] last v h b = (v, refl)
start_idle info (c ∷ cs) last v h b = ground (arith, last_bound c.id last cs h.3)

-- on a busy one
pub start_busy :
    (info : RecvInfo) (cs : List RecvBuffer) → info.valid ≡ true → start_next info cs ≡ info
unfolding start_next
start_busy info [] v = refl
start_busy info (c ∷ cs) v = ground arith

put-Current :
    (info : RecvInfo) (cs : List RecvBuffer) (c : RecvBuffer) (last : ℕ) (rest : List ℕ)
    → Consecutive info.prev_id cs last
    → Current info cs rest
    → c.id ≡ last + 1
    → c.len ≡ length c.payload
    → 0 < c.len
    → c.id < 2 ^ 64
    → Current (start_next info (cs ++ (c ∷ []))) (cs ++ (c ∷ [])) (rest ++ c.payload)
put-Current info [] c last rest ids cur e l p b =
    subst (Current (start_next info (c ∷ [])) (c ∷ []))
      (append-nil c.payload ∙ sym (ap (λ r. r ++ c.payload) cur.1))
      (start_idle info (c ∷ []) c.id cur.0 (Consecutive-append c info.prev_id last [] ids e l p) b)
put-Current info (d ∷ ds) c last rest ids cur e l p b =
    rw (start_busy info (d ∷ (ds ++ (c ∷ []))) cur.0) (
      cur.0,
      cur.1,
      cur.2,
      cur.3,
      ap (λ r. r ++ c.payload) cur.4
          ∙ append_assoc (drop info.offset d.payload) (payloads ds) c.payload
          ∙ ap (◌++◌ (drop info.offset d.payload))
              (sym (payloads-append ds (c ∷ []) ∙ ap (◌++◌ (payloads ds)) (append-nil c.payload))),
    )

-- A message with the next id joins the end of the queue.
pub put_to_recv_ctx-IsQueue :
    {ctx : RecvCtx} {last : ℕ} {rest : List ℕ} (c : RecvBuffer)
    → IsQueue ctx last rest
    → c.id ≡ last + 1
    → c.len ≡ length c.payload
    → 0 < c.len
    → c.id < 2 ^ 64
    → IsQueue (put_to_recv_ctx ctx c) c.id (rest ++ c.payload)
unfolding put_to_recv_ctx
put_to_recv_ctx-IsQueue {ctx} {last} {rest} c q e l p b =
    let info : RecvInfo = info_or_new ctx.info in
    let place : insert_chunk c ctx.list ≡ ctx.list ++ (c ∷ []) =
      insert_last c info.prev_id last ctx.list q.ids (omega arith) in
    rw (q.not_chunk, put_to_recv_ctx, place)
      (record {
        not_chunk = refl;
        ids =
            rw (start_next-prev_id info (ctx.list ++ (c ∷ [])))
              (Consecutive-append c info.prev_id last ctx.list q.ids e l p);
        current = put-Current info ctx.list c last rest q.ids q.current e l p b;
      })
