-- ===== src/Ws/Recv/Reading.antt =====
-- Reading from the receive context: what a read takes off the queue.
use zktls_bench.Prelude.{
  ℕ, suc, ◌+◌, ◌-◌, ◌^◌, ◌<◌, ◌≤◌, ◌≡◌, refl, ap, sym, subst, ◌∙◌, Bool, true, false, Option, none,
  some, List, [], ◌∷◌, ◌++◌, length, take, drop, min, ltb, ◌==◌, arith, length-append, length-drop,
  take_append_le, drop_append_le, drop-drop, drop_all,
}
use native.Mathlib.Decide.{dec_lt}
use zktls_bench.Errors.{ok}
use zktls_bench.Ws.Recv.{
  RecvBuffer, RecvInfo, RecvCtx, start_next, info_or_new, read_at, finish_node, read_info,
  recv_from_recv_ctx, empty_recv_ctx, valid_info, insert_chunk, put_to_recv_ctx,
}
use zktls_bench.Ws.Recv.Queue.{
  IsQueue, Consecutive, Current, payloads, start_next-prev_id, start_idle, start_busy,
}

-- A read took `k` bytes off the front of the queue.
pub record Took (ctx : RecvCtx) (n last : ℕ) (rest : List ℕ) : Type 0 where
  pub count : ℕ
  pub ctx' : RecvCtx
  pub result : recv_from_recv_ctx ctx n ≡ ok (take count rest, ctx')
  pub some_bytes : 0 < count
  pub count_le : count ≤ n
  pub count_rest : count ≤ length rest
  pub left : IsQueue ctx' last (drop count rest)
  pub same_zero : ctx'.recv_zero ≡ ctx.recv_zero
  pub one : length ctx.list ≤ 1 → (count ≡ min n (length rest)) × (length ctx'.list ≤ 1)

no_more : (cs : List RecvBuffer) → length cs ≤ 0 → length (payloads cs) ≡ 0
no_more [] h = refl
no_more (c ∷ cs) h = absurd (omega arith)

module _ (info : RecvInfo) (c : RecvBuffer) (cs : List RecvBuffer) (z : Bool) (last : ℕ)
    (ids : Consecutive info.prev_id (c ∷ cs) last)
    (cur : Current info (c ∷ cs) (drop info.offset c.payload ++ payloads cs))
    (small : last < 2 ^ 64) (n : ℕ) where
  abbrev ctx : RecvCtx
  ctx = record { list = c ∷ cs; info = some info; recv_zero = z; is_chunk = false }

  abbrev bytes : List ℕ
  bytes = drop info.offset c.payload

  bytes_len : length bytes ≡ info.len - info.offset
  bytes_len = omega (arith, length-drop info.offset c.payload, cur.1, ids.1)

  -- The copy stays within the first node.
  read_front :
      (k : ℕ)
      → k ≤ info.len - info.offset
      → info.offset + k ≤ length c.payload
      → read_at info.offset k info.payload ≡ ok (take k (bytes ++ payloads cs))
  unfolding read_at
  read_front k h b =
      let front : take k (bytes ++ payloads cs) ≡ take k bytes =
        take_append_le k bytes (payloads cs) (omega (arith, bytes_len)) in
      rw (cur.2, front) (ground arith)

  rest_after :
      (k : ℕ)
      → k ≤ info.len - info.offset
      → drop k (bytes ++ payloads cs) ≡ drop (info.offset + k) c.payload ++ payloads cs
  rest_after k h =
      drop_append_le k bytes (payloads cs) (omega (arith, bytes_len))
      ∙ ap (λ d. d ++ payloads cs) (drop-drop k info.offset c.payload)

  part_read : 0 < n → n < info.len - info.offset → Took ctx n last (bytes ++ payloads cs)
  unfolding recv_from_recv_ctx read_info
  part_read p lt =
      let moved : RecvInfo = record info { offset = info.offset + n } in
      let next : RecvCtx = record {
        list = c ∷ cs;
        info = some moved;
        recv_zero = z;
        is_chunk = false;
      } in
      let copied : read_at info.offset n info.payload ≡ ok (take n (bytes ++ payloads cs)) =
        read_front n (omega arith) (omega (arith, cur.1, ids.1)) in
      let min_eq : min (info.len - info.offset) n ≡ n = omega arith in
      let more : (info.offset + n == info.len) ≡ false = ground arith in
      let here : ltb info.offset info.len ≡ true = ground arith in
      record {
        count = n;
        ctx' = next;
        result = rw (here, min_eq, copied, more, start_busy moved (c ∷ cs) cur.0) refl;
        some_bytes = p;
        count_le = omega arith;
        count_rest = omega (arith, length-append bytes (payloads cs), bytes_len);
        left = record {
          not_chunk = refl;
          ids = ids;
          current = (cur.0, cur.1, cur.2, omega arith, rest_after n (omega arith));
        };
        same_zero = refl;
        one = λ h. (omega (arith, length-append bytes (payloads cs), bytes_len), h);
      }

  whole_read : 0 < n → info.len - info.offset ≤ n → Took ctx n last (bytes ++ payloads cs)
  unfolding recv_from_recv_ctx read_info finish_node
  whole_read p le =
      let k : ℕ = info.len - info.offset in
      let moved : RecvInfo = record info { offset = info.offset + k } in
      let done : RecvInfo = record moved { prev_id = c.id; valid = false } in
      let next : RecvCtx = record {
        list = cs;
        info = some (start_next done cs);
        recv_zero = z;
        is_chunk = false;
      } in
      let copied : read_at info.offset k info.payload ≡ ok (take k (bytes ++ payloads cs)) =
        read_front k (omega arith) (omega (arith, cur.1, cur.3, ids.1)) in
      let min_eq : min (info.len - info.offset) n ≡ k = omega arith in
      let all : (info.offset + k == info.len) ≡ true = ground (arith, cur.3) in
      let here : ltb info.offset info.len ≡ true = ground (arith, cur.3) in
      let gone : drop (info.offset + k) c.payload ≡ [] =
        drop_all (info.offset + k) c.payload (omega (arith, cur.1, cur.3, ids.1)) in
      let left_eq : drop k (bytes ++ payloads cs) ≡ payloads cs =
        rest_after k (omega arith) ∙ ap (λ d. d ++ payloads cs) gone in
      record {
        count = k;
        ctx' = next;
        result = rw (here, min_eq, copied, all) refl;
        some_bytes = omega (arith, cur.3);
        count_le = omega arith;
        count_rest = omega (arith, length-append bytes (payloads cs), bytes_len);
        left = record {
          not_chunk = refl;
          ids = rw (start_next-prev_id done cs) ids.3;
          current = rw left_eq (start_idle done cs last refl ids.3 small);
        };
        same_zero = refl;
        one = λ h. (
          omega (arith, length-append bytes (payloads cs), bytes_len, no_more cs (omega arith)),
          omega arith,
        );
      }

  node_read : 0 < n → Took ctx n last (bytes ++ payloads cs)
  node_read p = elim (dec_lt n (info.len - info.offset)) [
    | yes lt ↦ part_read p lt
    | no ge ↦ whole_read p (omega arith)
  ]

read_list :
    (xs : List RecvBuffer) (info : Option RecvInfo) (z : Bool) {last : ℕ} {rest : List ℕ} (n : ℕ)
    → Consecutive (info_or_new info).prev_id xs last
    → Current (info_or_new info) xs rest
    → last < 2 ^ 64
    → 0 < n
    → 0 < length rest
    → Took (record { list = xs; info = info; recv_zero = z; is_chunk = false }) n last rest
read_list [] info z n ids cur b p q = absurd (omega (arith, ap length cur.1))
read_list (c ∷ cs) none z n ids cur b p q = absurd (ground (arith, cur.0))
read_list (c ∷ cs) (some info) z n ids cur b p q =
    let none_left : Current info (c ∷ cs) (drop info.offset c.payload ++ payloads cs) =
      (cur.0, cur.1, cur.2, cur.3, refl) in
    subst (Took (record { list = c ∷ cs; info = some info; recv_zero = z; is_chunk = false }) n _)
      (sym cur.4) (node_read info c cs z _ ids none_left b n p)

-- `RecvFromRecvCtx` on a queue that holds something, for a read of at least one byte: it takes at
-- least one byte and at most as many as asked for, they are the first of the queue in order, and the
-- rest stays queued. No memory behind a node is read, if the last id fits 64 bits.
pub recv_from_recv_ctx-Took :
    (ctx : RecvCtx) (n : ℕ) {last : ℕ} {rest : List ℕ}
    → IsQueue ctx last rest
    → last < 2 ^ 64
    → 0 < n
    → 0 < length rest
    → Took ctx n last rest
recv_from_recv_ctx-Took ctx n {last} {rest} q b p h =
    subst
      (λ c.
        Took (record { list = ctx.list; info = ctx.info; recv_zero = ctx.recv_zero; is_chunk = c })
          n last rest)
      (sym q.not_chunk) (read_list ctx.list ctx.info ctx.recv_zero n q.ids q.current b p h)

valid_list :
    (xs : List RecvBuffer) (info : Option RecvInfo) (rest : List ℕ)
    → Current (info_or_new info) xs rest
    → (prev last : ℕ) → Consecutive prev xs last
    → (valid_info info ≡ ltb 0 (length rest))
      × (empty_recv_ctx (record { list = xs; info = info; recv_zero = false; is_chunk = false })
          ≡ (length rest == 0))
unfolding empty_recv_ctx
valid_list [] none rest cur prev last ids = rw cur.1 (refl, refl)
valid_list [] (some info) rest cur prev last ids = rw (cur.1, cur.0) (refl, refl)
valid_list (c ∷ cs) none rest cur prev last ids = absurd (ground (arith, cur.0))
valid_list (c ∷ cs) (some info) rest cur prev last ids =
    let some_left : 0 < length rest = omega (
      arith,
      ap length cur.4,
      length-append (drop info.offset c.payload) (payloads cs),
      length-drop info.offset c.payload,
      cur.1,
      cur.3,
      ids.1,
    ) in
    ground (arith, cur.0, cur.3)

no_bytes :
    (xs : List RecvBuffer) (info : RecvInfo) (prev last : ℕ)
    → Consecutive prev xs last
    → Current info xs []
    → length xs ≡ 0
no_bytes [] info prev last ids cur = refl
no_bytes (c ∷ cs) info prev last ids cur = absurd (
    omega (
      arith,
      ap length cur.4,
      length-append (drop info.offset c.payload) (payloads cs),
      length-drop info.offset c.payload,
      cur.1,
      cur.3,
      ids.1,
    ))

-- `EmptyRecvCtx` says whether the queue is empty, and a message is being read exactly if it is not.
pub empty_recv_ctx-IsQueue :
    (ctx : RecvCtx) {last : ℕ} {rest : List ℕ}
    → IsQueue ctx last rest
    → (valid_info ctx.info ≡ ltb 0 (length rest)) × (empty_recv_ctx ctx ≡ (length rest == 0))
unfolding empty_recv_ctx
empty_recv_ctx-IsQueue ctx {last} {rest} q =
    rw q.not_chunk (valid_list ctx.list ctx.info rest q.current _ last q.ids)

-- A queue with no bytes has no nodes.
pub nothing_listed : (ctx : RecvCtx) {last : ℕ} → IsQueue ctx last [] → length ctx.list ≡ 0
nothing_listed ctx q = no_bytes ctx.list (info_or_new ctx.info) _ _ q.ids q.current

length-insert_chunk :
    (c : RecvBuffer) (cs : List RecvBuffer) → length (insert_chunk c cs) ≡ suc (length cs)
unfolding insert_chunk
length-insert_chunk c [] = refl
length-insert_chunk c (b ∷ bs) = ground (arith, length-insert_chunk c bs)

pub length-put_to_recv_ctx :
    (ctx : RecvCtx) (c : RecvBuffer) → length (put_to_recv_ctx ctx c).list ≡ suc (length ctx.list)
unfolding put_to_recv_ctx
length-put_to_recv_ctx ctx c = ground (arith, length-insert_chunk c ctx.list)
