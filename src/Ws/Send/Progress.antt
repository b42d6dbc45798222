-- ===== src/Ws/Send/Progress.antt =====
-- What a sending step does, seen from outside: which payloads went out in frames, and which bytes
-- stay in the buffer.
use zktls_bench.Prelude.{
  ℕ, ◌+◌, ◌^◌, ◌<◌, ◌≡◌, refl, ap, sym, ap₂, ◌∙◌, ◌≢◌, true, false, some, List, [], ◌∷◌, ◌++◌,
  append_assoc, append-nil, length, All, All-append, concat, concat-append, arith,
}
use zktls_bench.Ws.SendBuffer.{
  SendBuffer, add64, new_send_buffer, can_put, put, empty, packet, pack, reset,
}
use zktls_bench.Ws.SendBuffer.Laws.{
  Holds, frame, new-Holds, put-Holds, packet-pack, reset-pack-Holds, pack_fields, put_fields,
  send_id-put, new_fields,
}
use zktls_bench.Ws.Send.{tmp_packet}

-- The payloads in frames, numbered on from `id`.
abbrev pub frames : ℕ → List (List ℕ) → List (List ℕ)
frames id [] = []
frames id (p ∷ ps) = frame (add64 id 1) p ∷ frames (add64 id 1) ps

abbrev pub last_id : ℕ → List (List ℕ) → ℕ
last_id id [] = id
last_id id (p ∷ ps) = last_id (add64 id 1) ps

pub frames-append :
    (id : ℕ) (ps qs : List (List ℕ))
    → frames id (ps ++ qs) ≡ frames id ps ++ frames (last_id id ps) qs
frames-append id [] qs = refl
frames-append id (p ∷ ps) qs = ap (◌∷◌ (frame (add64 id 1) p)) (frames-append (add64 id 1) ps qs)

pub last_id-append :
    (id : ℕ) (ps qs : List (List ℕ)) → last_id id (ps ++ qs) ≡ last_id (last_id id ps) qs
last_id-append id [] qs = refl
last_id-append id (p ∷ ps) qs = last_id-append (add64 id 1) ps qs

-- From a buffer that holds `held`, with `bytes` handed over and `before` sent, to another buffer
-- with `after` sent: the payloads went out in order, in frames with the next ids, none of them empty,
-- and with what the buffer holds now they make up all bytes.
pub record Progress (b b' : SendBuffer) (held bytes : List ℕ) (before after : List (List ℕ))
    : Type 0 where
  pub payloads : List (List ℕ)
  pub rest : List ℕ
  pub holds : Holds b' rest
  pub sent : after ≡ before ++ frames b.send_id payloads
  pub ids : b'.send_id ≡ last_id b.send_id payloads
  pub bytes_kept : concat payloads ++ rest ≡ held ++ bytes
  pub nonempty : All (λ p. p ≢ []) payloads
  pub same_size : b'.buffer_size ≡ b.buffer_size

pub Progress-trans :
    {b c d : SendBuffer} {held xs ys : List ℕ} {s t u : List (List ℕ)}
    → (first : Progress b c held xs s t) → Progress c d first.rest ys t u
    → Progress b d held (xs ++ ys) s u
Progress-trans {b} {held = held} {xs} {ys} {s} first then' = record {
  payloads = first.payloads ++ then'.payloads;
  rest = then'.rest;
  holds = then'.holds;
  sent =
      then'.sent
      ∙ ap₂ (λ l id. l ++ frames id then'.payloads) first.sent first.ids
      ∙ append_assoc s (frames b.send_id first.payloads) _
      ∙ ap (◌++◌ s) (sym (frames-append b.send_id first.payloads then'.payloads));
  ids =
      then'.ids
      ∙ ap (λ id. last_id id then'.payloads) first.ids
      ∙ sym (last_id-append b.send_id first.payloads then'.payloads);
  bytes_kept =
      ap (λ l. l ++ then'.rest) (concat-append first.payloads then'.payloads)
      ∙ append_assoc (concat first.payloads) (concat then'.payloads) then'.rest
      ∙ ap (◌++◌ (concat first.payloads)) then'.bytes_kept
      ∙ sym (append_assoc (concat first.payloads) first.rest ys)
      ∙ ap (λ l. l ++ ys) first.bytes_kept
      ∙ append_assoc held xs ys;
  nonempty = All-append _ first.payloads then'.payloads first.nonempty then'.nonempty;
  same_size = then'.same_size ∙ first.same_size;
}

-- Nothing sent, nothing handed over.
pub Progress-stay :
    {b : SendBuffer} {p : List ℕ} (s : List (List ℕ)) → Holds b p → Progress b b p [] s s
Progress-stay {b} {p} s h = record {
  payloads = [];
  rest = p;
  holds = h;
  sent = sym (append-nil s);
  ids = refl;
  bytes_kept = sym (append-nil p);
  nonempty = tt;
  same_size = refl;
}

-- Bytes that fit are put, and nothing is sent.
pub Progress-put :
    {b : SendBuffer} {p : List ℕ} (xs : List ℕ) (s : List (List ℕ))
    → Holds b p
    → b.buffer_size + length xs < 2 ^ 64
    → can_put b (length xs) ≡ true
    → Progress b (put b xs) p xs s s
Progress-put {b} {p} xs s h small fits = record {
  payloads = [];
  rest = p ++ xs;
  holds = put-Holds xs h small;
  sent = sym (append-nil s);
  ids = (put_fields b xs fits).0;
  bytes_kept = refl;
  nonempty = tt;
  same_size = (put_fields b xs fits).1;
}

nonempty_of_length : (p : List ℕ) → 0 < length p → p ≢ []
nonempty_of_length [] h e = absurd (omega arith)
nonempty_of_length (x ∷ p) h e = cc

-- What the buffer holds is sent as one frame, and the buffer is cleared.
Progress-flush :
    {b : SendBuffer} {p : List ℕ} {s t : List (List ℕ)}
    → Holds b p
    → b.buffer_size < 2 ^ 63
    → empty b ≡ false
    → t ≡ s ++ (packet (pack b) ∷ [])
    → Progress b (reset (pack b)) p [] s t
unfolding reset empty
Progress-flush {b} {p} {s} h small full e =
    let short : length p < 2 ^ 63 = omega (arith, h.size) in
    record {
      payloads = p ∷ [];
      rest = [];
      holds = reset-pack-Holds h short;
      sent = e ∙ ap (λ f. s ++ (f ∷ [])) (packet-pack h short);
      ids = (pack_fields h short).0;
      bytes_kept = append-nil (p ++ []);
      nonempty = (nonempty_of_length p (ground (arith, h.end)), tt);
      same_size = (pack_fields h short).2;
    }

-- A flush, and a step from the cleared buffer.
pub Progress-flush_then :
    {b d : SendBuffer} {p ys : List ℕ} {s t u : List (List ℕ)}
    → Holds b p
    → b.buffer_size < 2 ^ 63
    → empty b ≡ false
    → t ≡ s ++ (packet (pack b) ∷ [])
    → Progress (reset (pack b)) d [] ys t u
    → Progress b d p ys s u
unfolding Progress-flush
Progress-flush_then h small full e then' = Progress-trans (Progress-flush h small full e) then'

-- Bytes that do not fit are sent as a frame of their own, past the buffer.
pub Progress-tmp :
    {b : SendBuffer} (xs : List ℕ) (now : ℕ) {s t : List (List ℕ)}
    → Holds b []
    → length xs < 2 ^ 62
    → 0 < length xs
    → t ≡ s ++ ((tmp_packet b xs now).0 ∷ [])
    → Progress b (tmp_packet b xs now).1 [] xs s t
unfolding tmp_packet new_send_buffer
Progress-tmp {b} xs now {s} h small some_bytes e =
    let tmp : SendBuffer = (new_send_buffer (length xs) (some b) now).0 in
    let tmp_fields = new_fields (length xs) b now in
    let filled : Holds (put tmp xs) xs =
      put-Holds xs (new-Holds (length xs) (some b) now) (ground (arith, tmp_fields)) in
    record {
      payloads = xs ∷ [];
      rest = [];
      holds = record { free = h.free; layout = h.layout; end = h.end; size = h.size };
      sent =
          e
          ∙ ap (λ f. s ++ (f ∷ []))
              (packet-pack filled (omega arith)
                ∙ ap (λ id. frame (add64 id 1) xs) (send_id-put tmp xs ∙ tmp_fields.0));
      ids = refl;
      bytes_kept = append-nil (xs ++ []) ∙ append-nil xs;
      nonempty = (nonempty_of_length xs some_bytes, tt);
      same_size = refl;
    }

pub reset-pack_fields :
    {b : SendBuffer} {p : List ℕ}
    → Holds b p
    → b.buffer_size < 2 ^ 63
    → Holds (reset (pack b)) [] × ((reset (pack b)).buffer_size ≡ b.buffer_size)
unfolding reset
reset-pack_fields h small =
    (reset-pack-Holds h (omega (arith, h.size)), (pack_fields h (omega (arith, h.size))).2)

-- A buffer that reports itself empty holds nothing.
pub empty-Holds_nil : {b : SendBuffer} (p : List ℕ) → Holds b p → empty b ≡ true → p ≡ []
unfolding empty
empty-Holds_nil [] h e = refl
empty-Holds_nil (x ∷ p) h e = absurd (ground (arith, h.end))
