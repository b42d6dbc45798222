-- ===== src/Proxy/RecvProxy/Laws.antt =====
-- The receiving side of the proxy client as a queue of bytes.
use zktls_bench.Prelude.{
  ℕ, zero, suc, ◌+◌, ◌-◌, ◌^◌, ◌<◌, ◌≤◌, ◌≡◌, refl, ap, ap₂, sym, ◌∙◌, subst, Bool, true, false,
  not, ◌||◌, ◌&&◌, List, [], ◌∷◌, ◌++◌, append_assoc, append-nil, ltb, leb, ◌==◌, if◌then◌else◌,
  length, take, drop, arith, length-append, length-take, length-drop, take_nil, drop_nil, drop-drop,
  take-append-drop, take_append_ge, Bool-cases, inl, inr,
}
use native.Mathlib.Decide.{dec_lt}
use zktls_bench.Errors.{Outcome, ok}
use zktls_bench.Ws.SendBuffer.{add64}
use zktls_bench.Ws.Recv.{RecvBuffer, RecvCtx, put_payload_to_recv_ctx, empty_recv_ctx, valid_info}
use zktls_bench.Ws.Recv.Queue.{IsQueue, new_recv_ctx-IsQueue, put_to_recv_ctx-IsQueue}
use zktls_bench.Ws.Recv.Reading.{Took, recv_from_recv_ctx-Took, empty_recv_ctx-IsQueue}
use zktls_bench.Proxy.RecvProxy.{
  RecvProxyCtx, new_recv_proxy_ctx, put_to_recv_proxy_ctx, ReadStep, returns, waits, recv_loop,
  recv_from_recv_proxy_ctx,
}

-- The bytes that came and were not read, in order.
pub record Keeps (ctx : RecvProxyCtx) (rest : List ℕ) : Type 0 where
  pub queue : IsQueue ctx.inner_ctx ctx.id rest

pub new_recv_proxy_ctx-Keeps : Keeps new_recv_proxy_ctx []
new_recv_proxy_ctx-Keeps = record { queue = new_recv_ctx-IsQueue }

put_payload-IsQueue :
    (c : RecvCtx) (last : ℕ) (rest buf : List ℕ)
    → IsQueue c last rest
    → 0 < length buf
    → last + 2 < 2 ^ 64
    → IsQueue (put_payload_to_recv_ctx c (last + 1) buf) (last + 1) (rest ++ buf)
unfolding put_payload_to_recv_ctx
put_payload-IsQueue c last rest buf q p b =
    let given : (last + 1 == 0xffff_ffff_ffff_ffff) ≡ false = ground arith in
    let chunk : RecvBuffer = record { id = last + 1; len = length buf; payload = buf } in
    rw given (put_to_recv_ctx-IsQueue chunk q refl refl p (omega arith))

-- `PutToRecvProxyCtx` puts bytes at the end, if there are any and fewer than 2^64 - 2 came before.
pub put_to_recv_proxy_ctx-Keeps :
    (ctx : RecvProxyCtx) (rest buf : List ℕ)
    → Keeps ctx rest
    → 0 < length buf
    → ctx.id + 2 < 2 ^ 64
    → Keeps (put_to_recv_proxy_ctx ctx buf) (rest ++ buf)
unfolding put_to_recv_proxy_ctx
put_to_recv_proxy_ctx-Keeps ctx rest buf k p b =
    let next : add64 ctx.id 1 ≡ ctx.id + 1 = omega arith in
    record { queue = rw next (put_payload-IsQueue ctx.inner_ctx ctx.id rest buf k.queue p b) }

abbrev pub step : Bool → List ℕ → RecvCtx → ReadStep
step true bytes c = returns bytes c
step false bytes c = waits bytes c

-- What a read of `m` more bytes gives.
pub record Loop (outcome : Outcome ReadStep) (c : RecvCtx) (last : ℕ) (rest got : List ℕ) (m : ℕ)
    : Type 0 where
  pub c' : RecvCtx
  pub result : outcome ≡ ok (step (leb m (length rest) || c.recv_zero) (got ++ take m rest) c')
  pub queue : IsQueue c' last (drop m rest)

zero_le : (xs : List ℕ) → leb 0 (length xs) ≡ true
zero_le xs = ground arith

no_length : (xs : List ℕ) → length xs ≡ 0 → xs ≡ []
no_length [] h = refl
no_length (x ∷ xs) h = absurd (omega arith)

shifted : (m k n : ℕ) → k ≤ m → k ≤ n → leb (m - k) (n - k) ≡ leb m n
shifted m k n h l = ground arith

split_take :
    (m k : ℕ) (xs : List ℕ)
    → k ≤ m
    → k ≤ length xs
    → take k xs ++ take (m - k) (drop k xs) ≡ take m xs
split_take m k xs h l =
    let len : length (take k xs) ≡ k = omega (arith, length-take k xs) in
    ap (λ j. take k xs ++ take (m - j) (drop k xs)) (sym len)
    ∙ sym (take_append_ge m (take k xs) (drop k xs) (omega arith))
    ∙ ap (take m) (take-append-drop k xs)

module _ (fuel len : ℕ) (c : RecvCtx) (last : ℕ) (got : List ℕ) (m : ℕ)
    (e : len ≡ length got + m) where
  done :
      (rest : List ℕ)
      → IsQueue c last rest
      → m ≡ 0
      → Loop (recv_loop (suc fuel) c len got) c last rest got m
  unfolding recv_loop
  done rest q z =
      let stop : ltb (length got) len ≡ false = ground arith in
      record { c' = c; result = rw (z, stop, append-nil got, zero_le rest) refl; queue = rw z q }

  more : 0 < m → ltb (length got) len ≡ true
  more p = let lt : length got < len = omega arith in ground arith

  nothing : IsQueue c last [] → 0 < m → Loop (recv_loop (suc fuel) c len got) c last [] got m
  unfolding recv_loop
  nothing q p = record {
    c' = c;
    result =
        rw
          (
            more p,
            (empty_recv_ctx-IsQueue c q).0,
            (empty_recv_ctx-IsQueue c q).1,
            no_bytes,
            take_nil {A = ℕ} m,
            append-nil got,
          )
          (either c.recv_zero _);
    queue = rw (drop_nil {A = ℕ} m) q;
  }
    where
      no_bytes : leb m 0 ≡ false
      no_bytes = ground arith

      either :
          (z : Bool) (rest : Outcome ReadStep)
          → (if true && not z
              then ok (waits got c)
              else if z && true
              then ok (returns got c)
              else rest)
            ≡ ok (step (false || z) got c)
      either true rest = refl
      either false rest = refl

  module _ (rest : List ℕ) (q : IsQueue c last rest) (small : last < 2 ^ 64) (p : 0 < m)
      (h : 0 < length rest) where
    taken : Took c m last rest
    taken = recv_from_recv_ctx-Took c m q small p h

    go_on :
        Loop
          (recv_loop fuel taken.ctx' len (got ++ take taken.count rest))
          taken.ctx'
          last
          (drop taken.count rest)
          (got ++ take taken.count rest)
          (m - taken.count)
        → Loop (recv_loop (suc fuel) c len got) c last rest got m
    unfolding recv_loop
    go_on later =
        let k : ℕ = taken.count in
        let valid : valid_info c.info ≡ true = (empty_recv_ctx-IsQueue c q).0 ∙ ground arith in
        let filled : empty_recv_ctx c ≡ false = (empty_recv_ctx-IsQueue c q).1 ∙ ground arith in
        let left : len - length got ≡ m = omega arith in
        let closed : (c.recv_zero && false) ≡ false = elim (Bool-cases c.recv_zero) [
          | inl z ↦ rw z refl
          | inr z ↦ rw z refl
        ] in
        let same : leb (m - k) (length (drop k rest)) ≡ leb m (length rest) =
          rw (length-drop k rest) (shifted m k (length rest) taken.count_le taken.count_rest) in
        let all : take k rest ++ take (m - k) (drop k rest) ≡ take m rest =
          split_take m k rest taken.count_le taken.count_rest in
        let gone : drop (m - k) (drop k rest) ≡ drop m rest =
          let sum : k + (m - k) ≡ m = omega (arith, taken.count_le) in
          drop-drop (m - k) k rest ∙ ap (λ j. drop j rest) sum in
        record {
          c' = later.c';
          result =
              rw (more p, valid, filled, closed, left, taken.result)
                (later.result
                  ∙ ap₂ (λ b l. ok (step b l later.c')) (ap₂ ◌||◌ same taken.same_zero)
                      (append_assoc got (take k rest) (take (m - k) (drop k rest))
                        ∙ ap (◌++◌ got) all));
          queue = subst (IsQueue later.c' last) gone later.queue;
        }

-- The loop with fuel for each byte that is still to be read, and one.
loop_lem :
    (fuel len : ℕ) (c : RecvCtx) (last : ℕ) (rest got : List ℕ) (m : ℕ)
    → len ≡ length got + m
    → IsQueue c last rest
    → last < 2 ^ 64
    → m < fuel
    → Loop (recv_loop fuel c len got) c last rest got m
loop_lem zero len c last rest got m e q b f = absurd (omega arith)
loop_lem (suc fuel) len c last rest got m e q b f = elim (dec_lt 0 m) [
  | no z ↦ done fuel len c last got m e rest q (omega arith)
  | yes p ↦ elim (dec_lt 0 (length rest)) [
    | no empty' ↦
        let nil : rest ≡ [] = no_length rest (omega arith) in
        subst (λ r. Loop (recv_loop (suc fuel) c len got) c last r got m) (sym nil)
          (nothing fuel len c last got m e (subst (IsQueue c last) nil q) p)
    | yes h ↦
        let t : Took c m last rest = taken fuel len c last got m e rest q b p h in
        go_on fuel len c last got m e rest q b p h (
          loop_lem fuel len t.ctx' last (drop t.count rest) (got ++ take t.count rest) (m - t.count)
            (omega (
              arith,
              length-append got (take t.count rest),
              length-take t.count rest,
              t.count_le,
              t.count_rest,
            ))
            t.left b (omega (arith, t.some_bytes, t.count_le)))
  ]
]

-- `RecvFromRecvProxyCtx` for `len` bytes reads the queued bytes in order, and the rest stays queued.
-- It returns if there are `len` of them, or if the connection is closed, with what there is; it waits
-- exactly if there are fewer and the connection is open.
pub recv_from_recv_proxy_ctx-Loop :
    (ctx : RecvProxyCtx) (rest : List ℕ) (len : ℕ)
    → Keeps ctx rest
    → ctx.id < 2 ^ 64
    → Loop (recv_from_recv_proxy_ctx ctx len) ctx.inner_ctx ctx.id rest [] len
unfolding recv_from_recv_proxy_ctx
recv_from_recv_proxy_ctx-Loop ctx rest len k b =
    loop_lem (suc len) len ctx.inner_ctx ctx.id rest [] len (omega arith) k.queue b (omega arith)
