-- ===== src/Proxy/Receiving/Laws.antt =====
-- The bytes that the TLS server sends through the proxy reach the reader.
use zktls_bench.Proxy.Functions.{SendEx}
use zktls_bench.Proxy.Functions.Laws.{
  allocate_call_result_lem, IsFresh, begun, served, served-IsFresh, answered_call, Answers,
  message-begun, wait-answered, free-answered,
}
use zktls_bench.Prelude.{
  ℕ, ◌+◌, ◌^◌, ◌<◌, ◌≤◌, ◌≡◌, refl, sym, subst, ◌∙◌, Bool, true, false, ◌||◌, none, some, List, [],
  ◌∷◌, ◌++◌, append_assoc, append-nil, ltb, leb, ◌==◌, if◌then◌else◌, length, take, min, arith, All,
  take_all, concat,
}
use zktls_bench.Prelude.Bytes.{le, from_le, from_le-le}
use zktls_bench.Errors.{ok}
use zktls_bench.Ws.SendBuffer.{add64}
use zktls_bench.Ws.Recv.{RecvCtx, put_to_recv_ctx, put_payload_to_recv_ctx}
use zktls_bench.Proxy.RecvProxy.{RecvProxyCtx, put_to_recv_proxy_ctx, set_recv_proxy_ctx, returns}
use zktls_bench.Proxy.RecvProxy.Laws.{
  step, Keeps, put_to_recv_proxy_ctx-Keeps, recv_from_recv_proxy_ctx-Loop,
}
use zktls_bench.Proxy.Bytes.{on_recv_bytes, end_count}
use zktls_bench.Proxy.Requests.{Client}
use zktls_bench.Proxy.Receiving.{
  buffer_size, recv_request, is_closed, begin_recv, copied, end_recv, on_received, on_result,
  recv_round, goes_on, ended, process_recv, recv3,
}

-- The answer to a request for bytes: its header, and the bytes. No bytes say that the server closed.
abbrev pub answer_block : ℕ → List ℕ → List ℕ
answer_block id block = le 4 id ++ (le 4 (length block) ++ (le 4 0 ++ block))

-- The answers to the requests from one with the given id on.
abbrev pub answers : ℕ → List (List ℕ) → List (List ℕ)
answers id [] = []
answers id (p ∷ ps) = answer_block id p ∷ answers (id + 1) ps

abbrev pub IsBlock : List ℕ → Type 0
IsBlock p = (0 < length p) × (length p ≤ buffer_size)

answer_block-Answers :
    (id : ℕ) (p : List ℕ) → id < 2 ^ 32 → length p ≤ buffer_size → Answers (answer_block id p) 12 id
answer_block-Answers id p h k = record {
  call_id = from_le-le 4 id h;
  whole_header = omega arith;
  enough = omega arith;
  an_int = omega (arith, k);
}

-- The client while `do_recv` waits, and behind the call.
abbrev pub asked : Client → Client
asked c = record c {
  calls = begun 12 c.calls;
  sent = c.sent ++ (recv_request c.sock buffer_size 0 c.calls.next_id ∷ []);
}

abbrev pub behind_call : Client → Client
behind_call c = record (asked c) { calls = served c.calls }

begin_recv-asked :
    (send_ex : SendEx) (c : Client)
    → ((p : List ℕ) → send_ex p ≡ ok tt)
    → is_closed c ≡ false
    → c.calls.next_id < 0x7fff_ffff
    → begin_recv send_ex c.sock buffer_size 0 c ≡ ok (some c.calls.next_id, asked c)
unfolding begin_recv
begin_recv-asked send_ex c taken h b =
    rw
      (
        h,
        allocate_call_result_lem c.calls 12 b,
        taken (recv_request c.sock buffer_size 0 c.calls.next_id),
      )
      refl

copied-answer :
    (id n : ℕ) (p : List ℕ)
    → length p ≤ buffer_size
    → copied (answered_call n (answer_block id p)) buffer_size
      ≡ ok (record { ret = length p; bytes = p; errno = none })
unfolding copied
copied-answer id n p h =
    let size : from_le (le 4 (length p)) ≡ length p = from_le-le 4 (length p) (omega (arith, h)) in
    let positive : leb 0x8000_0000 (length p) ≡ false = ground (arith, h) in
    let whole : min (length p) buffer_size ≡ length p = ground (arith, h) in
    let there : ltb (length p) (length p) ≡ false = ground arith in
    rw (size, positive, whole, there, take_all (length p) p (omega arith)) refl

-- A round in which the answer comes in, up to what the thread does with it.
round-answer :
    (send_ex : SendEx) (errno junk : ℕ) (c : Client) (p : List ℕ)
    → ((q : List ℕ) → send_ex q ≡ ok tt)
    → IsFresh c.calls
    → is_closed c ≡ false
    → length p ≤ buffer_size
    → c.calls.next_id < 0x7fff_ffff
    → recv_round send_ex errno (answer_block c.calls.next_id p) junk c
      ≡ on_result errno (some (record { ret = length p; bytes = p; errno = none }), behind_call c)
unfolding recv_round end_recv
round-answer send_ex errno junk c p taken f o h b =
    let id : ℕ = c.calls.next_id in
    rw
      (
        begin_recv-asked send_ex c taken o b,
        message-begun c.calls 12 (answer_block id p) id junk f
            (answer_block-Answers id p (omega (arith, b)) h),
        wait-answered c.calls (answer_block id p),
        copied-answer id id p h,
        free-answered c.calls (answer_block id p),
      )
      refl

-- The client behind a block that was queued, and behind all of them.
abbrev pub behind_block : Client → List ℕ → Client
behind_block c p = record (behind_call c) {
  recv_ctx = put_to_recv_proxy_ctx c.recv_ctx p;
  count = (on_recv_bytes c.count (length p)).1;
}

abbrev pub behind_blocks : Client → List (List ℕ) → Client
behind_blocks c [] = c
behind_blocks c (p ∷ ps) = behind_blocks (behind_block c p) ps

-- The client behind the end.
abbrev pub behind_end : Client → Client
behind_end c = record (behind_call c) {
  recv_ctx = set_recv_proxy_ctx c.recv_ctx false;
  count = end_count c.count;
}

round-block :
    (send_ex : SendEx) (errno junk : ℕ) (c : Client) (p : List ℕ)
    → ((q : List ℕ) → send_ex q ≡ ok tt)
    → IsFresh c.calls
    → is_closed c ≡ false
    → IsBlock p
    → c.calls.next_id < 0x7fff_ffff
    → recv_round send_ex errno (answer_block c.calls.next_id p) junk c
      ≡ ok (goes_on errno (behind_block c p))
unfolding on_received
round-block send_ex errno junk c p taken f o h b =
    let some_bytes : (length p == 0) ≡ false = ground (arith, h.0) in
    let positive : leb 0x8000_0000 (length p) ≡ false = ground (arith, h.1) in
    let fits : ltb buffer_size (length p) ≡ false = ground (arith, h.1) in
    round-answer send_ex errno junk c p taken f o h.1 b ∙ rw (some_bytes, positive, fits) refl

round-end :
    (send_ex : SendEx) (errno junk : ℕ) (c : Client)
    → ((q : List ℕ) → send_ex q ≡ ok tt)
    → IsFresh c.calls
    → is_closed c ≡ false
    → c.calls.next_id < 0x7fff_ffff
    → recv_round send_ex errno (answer_block c.calls.next_id []) junk c
      ≡ ok (ended errno (behind_end c))
unfolding on_received
round-end send_ex errno junk c taken f o b =
    round-answer send_ex errno junk c [] taken f o (omega arith) b ∙ refl

put-recv_zero :
    (ctx : RecvCtx) (id : ℕ) (p : List ℕ)
    → (put_payload_to_recv_ctx ctx id p).recv_zero ≡ ctx.recv_zero
unfolding put_payload_to_recv_ctx put_to_recv_ctx
put-recv_zero ctx id p = either ctx.is_chunk _ _ refl
  where
    either :
        (b : Bool) (x y : RecvCtx)
        → x.recv_zero ≡ y.recv_zero
        → (if b then x else y).recv_zero ≡ y.recv_zero
    either true x y e = e
    either false x y e = refl

still_open : (c : Client) (p : List ℕ) → is_closed c ≡ false → is_closed (behind_block c p) ≡ false
unfolding put_to_recv_proxy_ctx on_recv_bytes
still_open c p o = rw (put-recv_zero c.recv_ctx.inner_ctx (add64 c.recv_ctx.id 1) p) o

-- What the thread has done behind the blocks.
record Fed (c c' : Client) (rest : List ℕ) (n : ℕ) : Type 0 where
  keeps : Keeps c'.recv_ctx rest
  fresh : IsFresh c'.calls
  still : is_closed c' ≡ false
  ids : c'.calls.next_id ≡ c.calls.next_id + n
  blocks : c'.recv_ctx.id ≡ c.recv_ctx.id + n
  others : c'.calls.call_result_head ≡ c.calls.call_result_head

put_to_recv_proxy_ctx-id :
    (ctx : RecvProxyCtx) (p : List ℕ)
    → ctx.id + 2 < 2 ^ 64
    → (put_to_recv_proxy_ctx ctx p).id ≡ ctx.id + 1
unfolding put_to_recv_proxy_ctx
put_to_recv_proxy_ctx-id ctx p b = omega arith

behind_blocks-Fed :
    (c : Client) (ps : List (List ℕ)) (rest : List ℕ)
    → IsFresh c.calls
    → is_closed c ≡ false
    → Keeps c.recv_ctx rest
    → All IsBlock ps
    → c.recv_ctx.id + length ps + 2 < 2 ^ 64
    → Fed c (behind_blocks c ps) (rest ++ concat ps) (length ps)
behind_blocks-Fed c [] rest f o k h b = record {
  keeps = subst (Keeps c.recv_ctx) (sym (append-nil rest)) k;
  fresh = f;
  still = o;
  ids = omega arith;
  blocks = omega arith;
  others = refl;
}
behind_blocks-Fed c (p ∷ ps) rest f o k h b =
    let next = put_to_recv_proxy_ctx-id c.recv_ctx p (omega arith) in
    let later =
      behind_blocks-Fed (behind_block c p) ps (rest ++ p) (served-IsFresh c.calls f)
        (still_open c p o) (put_to_recv_proxy_ctx-Keeps c.recv_ctx rest p k h.0.0 (omega arith)) h.1
        (omega (arith, next)) in
    record {
      keeps = subst (Keeps _) (append_assoc rest p (concat ps)) later.keeps;
      fresh = later.fresh;
      still = later.still;
      ids = omega (arith, later.ids);
      blocks = omega (arith, later.blocks, next);
      others = later.others;
    }

-- The thread over the answers with the blocks, whatever comes behind.
process_recv-answers :
    (send_ex : SendEx) (c : Client) (ps : List (List ℕ)) (more : List (List ℕ)) (junk errno : ℕ)
    → ((p : List ℕ) → send_ex p ≡ ok tt)
    → IsFresh c.calls
    → is_closed c ≡ false
    → All IsBlock ps
    → c.calls.next_id + length ps < 0x7fff_ffff
    → process_recv send_ex (answers c.calls.next_id ps ++ more) junk errno c
      ≡ process_recv send_ex more junk errno (behind_blocks c ps)
unfolding process_recv
process_recv-answers send_ex c [] more junk errno taken f o h b = refl
process_recv-answers send_ex c (p ∷ ps) more junk errno taken f o h b =
    rw (round-block send_ex errno junk c p taken f o h.0 (omega arith)) (
      process_recv-answers send_ex (behind_block c p) ps more junk errno taken
        (served-IsFresh c.calls f) (still_open c p o) h.1 (omega arith))

closed-Keeps :
    (ctx : RecvProxyCtx) (bytes : List ℕ)
    → Keeps ctx bytes
    → Keeps (set_recv_proxy_ctx ctx false) bytes
unfolding set_recv_proxy_ctx
closed-Keeps ctx bytes q = record {
  queue = record { not_chunk = q.queue.not_chunk; ids = q.queue.ids; current = q.queue.current };
}

at_once :
    (b : Bool) (bytes : List ℕ) (ctx : RecvCtx)
    → ok (step (b || true) bytes ctx) ≡ ok (returns bytes ctx)
at_once true bytes ctx = refl
at_once false bytes ctx = refl

-- The receiving thread of a client that is connected, over a stream that takes every request and
-- whatever other calls are pending: when the
-- proxy answers its requests with blocks of 1 to SEND_BUFFER_SIZE bytes and then with none, it ends,
-- the client is closed and the other calls are as they were. A `recv3` for any number of bytes then
-- returns at once, with the bytes that were queued before and those of the blocks, in order, as many
-- as were asked for or all there are. The pending calls have ids that were given out, and the ids of
-- calls and blocks stay below 2^31 - 1 and 2^64.
pub process_recv-recv3 :
    (send_ex : SendEx) (c : Client) (ps : List (List ℕ)) (rest : List ℕ) (junk errno len : ℕ)
    → ((p : List ℕ) → send_ex p ≡ ok tt)
    → IsFresh c.calls
    → is_closed c ≡ false
    → Keeps c.recv_ctx rest
    → All IsBlock ps
    → c.calls.next_id + length ps < 0x7fff_ffff
    → c.recv_ctx.id + length ps + 2 < 2 ^ 64
    → (c' : Client) × (process_recv send_ex
          (answers c.calls.next_id ps ++ (answer_block (c.calls.next_id + length ps) [] ∷ []))
          junk
          errno
          c
        ≡ ok (ended errno c'))
      × (is_closed c' ≡ true)
      × (c'.calls.call_result_head ≡ c.calls.call_result_head)
      × (ctx : RecvCtx) × (recv3 c' len ≡ ok (returns (take len (rest ++ concat ps)) ctx))
unfolding process_recv end_count recv3 set_recv_proxy_ctx
process_recv-recv3 send_ex c ps rest junk errno len taken f o k h b b' =
    let last : Client = behind_blocks c ps in
    let fed = behind_blocks-Fed c ps rest f o k h b' in
    let closed : Keeps (behind_end last).recv_ctx (rest ++ concat ps) =
      closed-Keeps last.recv_ctx _ fed.keeps in
    let read =
      recv_from_recv_proxy_ctx-Loop (behind_end last).recv_ctx (rest ++ concat ps) len closed
        (omega (arith, fed.blocks)) in
    (
      behind_end last,
      process_recv-answers send_ex c ps _ junk errno taken f o h b
          ∙ rw
              (
                sym fed.ids,
                round-end send_ex errno junk last taken fed.fresh fed.still
                    (omega (arith, fed.ids)),
              )
              refl,
      refl,
      fed.others,
      read.c',
      read.result ∙ at_once _ _ _,
    )
