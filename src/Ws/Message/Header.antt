-- ===== src/Ws/Message/Header.antt =====
-- Receiving one frame: what `RecvMessageHeader` and the read of the payload behind it give on the
-- bytes of a frame, and on less than a frame.
use zktls_bench.Prelude.{
  ℕ, suc, ◌+◌, ◌^◌, ◌<◌, ◌≤◌, ◌≡◌, refl, ap, sym, ◌∙◌, Bool, true, false, Option, none, some, List,
  [], ◌∷◌, ◌++◌, ltb, ◌==◌, if◌then◌else◌, length, take, drop, arith, take_append, drop_append,
  length-append, length-drop, All, append-nil, take-append-drop, take_append_le,
}
use zktls_bench.Prelude.Bytes.{from_le-le, ntoh64-be, IsByte}
use zktls_bench.Errors.{Exception, ok, err, connection_error}
use zktls_bench.Ws.Header.Laws.{
  header_bytes, extended_length, length_code, mask_bit, key_bytes, key_of, IsKey,
}
use zktls_bench.Ws.Mask.{un_mask_data}
use zktls_bench.Ws.Mask.Laws.{mask_payload, un_mask_data_lem}
use zktls_bench.Ws.Channel.{Channel}
use zktls_bench.Ws.Message.{
  Announced, announced, extra_size, recv_message_header, recv_payload, recv_frame, same_int,
}
use native.Mathlib.Decide.{dec_lt}

abbrev has_mask : Option ℕ → Bool
has_mask none = false
has_mask (some m) = true

extra_size-header_bytes :
    (n : ℕ) (m : Option ℕ)
    → extra_size (130 ∷ (mask_bit m + length_code n) ∷ [])
      ≡ length (extended_length n ++ key_bytes m)
unfolding extra_size length_code extended_length
extra_size-header_bytes n none = ground arith
extra_size-header_bytes n (some m) = ground arith

announced-header_bytes :
    (n : ℕ) (m : Option ℕ)
    → n < 2 ^ 64
    → IsKey m
    → announced (header_bytes n m)
      ≡ record { data_len = n; is_masked = has_mask m; mask_data = key_of m }
unfolding announced header_bytes
announced-header_bytes n none h k = ground (arith, ntoh64-be n h)
announced-header_bytes n (some m) h k = ground (arith, ntoh64-be n h, from_le-le 4 m k)

abbrev pub unmasked : Option ℕ → List ℕ → List ℕ
unmasked none xs = xs
unmasked (some key) xs = mask_payload key xs

-- Masking is of bytes.
abbrev pub Maskable : Option ℕ → List ℕ → Type 0
Maskable none xs = Unit {0}
Maskable (some key) xs = All IsByte xs

unmasked_lem :
    (m : Option ℕ) (xs : List ℕ)
    → IsKey m
    → Maskable m xs
    → (if has_mask m then un_mask_data xs (length xs) (key_of m) else xs) ≡ unmasked m xs
unmasked_lem none xs k b = refl
unmasked_lem (some key) xs k b =
    ap (λ l. un_mask_data l (length xs) key) (sym (append-nil xs))
    ∙ un_mask_data_lem key k xs [] b
    ∙ append-nil (mask_payload key xs)

header_two : (n : ℕ) (m : Option ℕ) → 2 ≤ length (header_bytes n m)
unfolding header_bytes
header_two n m = omega arith

-- A list with the front of another one.
prefix_split :
    (p q front back : List ℕ)
    → p ++ q ≡ front ++ back
    → length front ≤ length p
    → p ≡ front ++ drop (length front) p
prefix_split p q front back e h =
    sym (take-append-drop (length front) p)
    ∙ ap (λ l. l ++ drop (length front) p)
        (sym (take_append_le (length front) p q h)
          ∙ ap (take (length front)) e
          ∙ take_append (length front) front back refl)

module _ (ch : Channel) where
  open ch use {State, connection_type, recv_ex, pending, recv_ex-full, recv_ex-short}

  -- The two reads, on the bytes of a header.
  pub record HeaderRead (n : ℕ) (m : Option ℕ) (s : State) (more : List ℕ) : Type 0 where
    pub next : State
    pub result :
        recv_message_header ch s
        ≡ ok (record { data_len = n; is_masked = has_mask m; mask_data = key_of m }, next)
    pub behind : pending next ≡ more

  module _ (n : ℕ) (m : Option ℕ) (s : State) (more : List ℕ) (h : n < 2 ^ 64) (k : IsKey m)
      (e : pending s ≡ header_bytes n m ++ more) where
    abbrev front : List ℕ
    front = 130 ∷ (mask_bit m + length_code n) ∷ []

    abbrev extra : List ℕ
    extra = extended_length n ++ key_bytes m

    split : pending s ≡ front ++ (extra ++ more)
    unfolding header_bytes
    split = e

    first : ((recv_ex 2 s).0 ≡ front) × (pending (recv_ex 2 s).1 ≡ extra ++ more)
    first =
        let full = recv_ex-full 2 s (omega (arith, ap length split)) in
        (full.0 ∙ ap (take 2) split, full.1 ∙ ap (drop 2) split)

    whole :
        announced (front ++ extra)
        ≡ record { data_len = n; is_masked = has_mask m; mask_data = key_of m }
    unfolding header_bytes
    whole = announced-header_bytes n m h k

    short_read : length extra ≡ 0 → HeaderRead n m s more
    unfolding recv_message_header
    short_read z =
        let nil : extra ≡ [] =
          elim extra as (λ l. length l ≡ 0 → l ≡ []) [
            | [] ↦ λ q. refl
            | x ∷ xs ↦ λ q. absurd (omega arith)
          ]
            z in
        record {
          next = (recv_ex 2 s).1;
          result =
              rw
                (
                  first.0,
                  extra_size-header_bytes n m,
                  z,
                  sym (ap announced (ap (λ l. front ++ l) nil)),
                  whole,
                )
                refl;
          behind = first.1 ∙ ap (λ l. l ++ more) nil;
        }

    long_read : 0 < length extra → HeaderRead n m s more
    unfolding recv_message_header
    long_read p =
        let s1 : State = (recv_ex 2 s).1 in
        let size : ℕ = length extra in
        let full =
          recv_ex-full size s1 (omega (arith, ap length first.1, length-append extra more)) in
        let got : (recv_ex size s1).0 ≡ extra =
          full.0 ∙ ap (take size) first.1 ∙ take_append size extra more refl in
        let some_extra : (size == 0) ≡ false = ground arith in
        let same : (size == size) ≡ true = ground arith in
        record {
          next = (recv_ex size s1).1;
          result = rw (first.0, extra_size-header_bytes n m, got, some_extra, same, whole) refl;
          behind = full.1 ∙ ap (drop size) first.1 ∙ drop_append size extra more refl;
        }

    header_read : HeaderRead n m s more
    header_read = elim (dec_lt 0 (length extra)) [
      | yes p ↦ long_read p
      | no z ↦ short_read (omega arith)
    ]

  -- A whole frame read.
  pub record FrameRead (node : ℕ) (payload : List ℕ) (s : State) (more : List ℕ) : Type 0 where
    pub next : State
    pub result : recv_frame ch node s ≡ ok (payload, next)
    pub behind : pending next ≡ more

  payload_read :
      (node : ℕ) (m : Option ℕ) (xs : List ℕ) (s : State) (more : List ℕ)
      → IsKey m
      → node + length xs < 2 ^ 64
      → Maskable m xs
      → pending s ≡ xs ++ more
      → recv_payload ch node
          (record { data_len = length xs; is_masked = has_mask m; mask_data = key_of m })
          s
        ≡ ok (unmasked m xs, (recv_ex (length xs) s).1)
  unfolding recv_payload
  payload_read node m xs s more k h b e =
      let full = recv_ex-full (length xs) s (omega (arith, ap length e, length-append xs more)) in
      let got : (recv_ex (length xs) s).0 ≡ xs =
        full.0 ∙ ap (take (length xs)) e ∙ take_append (length xs) xs more refl in
      let same : same_int (length xs) (length xs) ≡ true = ground arith in
      let fits : ltb (node + length xs) (2 ^ 64) ≡ true = ground arith in
      rw (got, same, fits, unmasked_lem m xs k b) refl

  -- A frame that is at hand is read whole: the payload comes out unmasked, with or without a key,
  -- if its length and the node of the block that it is read into together are below 2^64, and what
  -- is behind the frame is left to be read.
  pub recv_frame-header_bytes :
      (node : ℕ) (m : Option ℕ) (xs : List ℕ) (s : State) (more : List ℕ)
      → IsKey m
      → node + length xs < 2 ^ 64
      → Maskable m xs
      → pending s ≡ header_bytes (length xs) m ++ (xs ++ more)
      → FrameRead node (unmasked m xs) s more
  unfolding recv_frame
  recv_frame-header_bytes node m xs s more k h b e =
      let head : HeaderRead (length xs) m s (xs ++ more) =
        header_read (length xs) m s (xs ++ more) (omega (arith, h)) k e in
      let full =
        recv_ex-full (length xs) head.next
          (omega (arith, ap length head.behind, length-append xs more)) in
      record {
        next = (recv_ex (length xs) head.next).1;
        result = rw (head.result, payload_read node m xs head.next more k h b head.behind) refl;
        behind = full.1 ∙ ap (drop (length xs)) head.behind ∙ drop_append (length xs) xs more refl;
      }

  payload_short :
      (node : ℕ) (h : Announced) (s : State)
      → node < 2 ^ 32
      → h.data_len < 2 ^ 32
      → length (pending s) < h.data_len
      → recv_payload ch node h s
        ≡ err (connection_error connection_type "recv websocket payload error")
  unfolding recv_payload
  payload_short node h s block small lt =
      let short : length (recv_ex h.data_len s).0 < h.data_len = recv_ex-short h.data_len s lt in
      let differ : same_int (length (recv_ex h.data_len s).0) h.data_len ≡ false = ground arith in
      let fits : ltb (node + h.data_len) (2 ^ 64) ≡ true = ground arith in rw (differ, fits) refl

  -- The error that a frame broken off after `k` bytes, of which `hdr` would be header, is reported as.
  abbrev pub broken_at : ℕ → ℕ → Exception
  broken_at k hdr = connection_error connection_type (
      if ltb k 2
      then "recv websocket header error"
      else if ltb k hdr
      then "recv websocket header extra data error"
      else "recv websocket payload error")

  module _ (node n : ℕ) (m : Option ℕ) (xs : List ℕ) (s : State) (missing : List ℕ)
      (e : pending s ++ missing ≡ header_bytes n m ++ xs) (k : IsKey m) where
    broken_early :
        length (pending s) < 2
        → recv_frame ch node s ≡ err (broken_at (length (pending s)) (length (header_bytes n m)))
    unfolding recv_frame recv_message_header
    broken_early lt =
        let short : length (recv_ex 2 s).0 < 2 = recv_ex-short 2 s lt in
        let differ : (length (recv_ex 2 s).0 == 2) ≡ false = ground arith in
        let early : ltb (length (pending s)) 2 ≡ true = ground arith in rw (differ, early) refl

    broken_header :
        2 ≤ length (pending s)
        → length (pending s) < length (header_bytes n m)
        → recv_frame ch node s ≡ err (broken_at (length (pending s)) (length (header_bytes n m)))
    unfolding recv_frame recv_message_header header_bytes
    broken_header ge lt =
        let l : List ℕ = extended_length n ++ key_bytes m in
        let front : List ℕ = 130 ∷ (mask_bit m + length_code n) ∷ [] in
        let full = recv_ex-full 2 s ge in
        let parts : pending s ≡ front ++ drop 2 (pending s) =
          prefix_split (pending s) missing front (l ++ xs) e ge in
        let got : (recv_ex 2 s).0 ≡ front = full.0 ∙ ap (take 2) parts in
        let s1 : State = (recv_ex 2 s).1 in
        let short : length (recv_ex (length l) s1).0 < length l =
          recv_ex-short (length l) s1
            (omega (arith, ap length full.1, length-drop 2 (pending s))) in
        let differ : (length (recv_ex (length l) s1).0 == length l) ≡ false = ground arith in
        let more : (length l == 0) ≡ false = ground arith in
        let late : ltb (length (pending s)) 2 ≡ false = ground arith in
        let early : ltb (length (pending s)) (suc (suc (length l))) ≡ true = ground arith in
        rw (got, extra_size-header_bytes n m, more, differ, late, early) refl

    broken_payload :
        n ≡ length xs
        → node < 2 ^ 32
        → n < 2 ^ 32
        → length (header_bytes n m) ≤ length (pending s)
        → 0 < length missing
        → recv_frame ch node s ≡ err (broken_at (length (pending s)) (length (header_bytes n m)))
    unfolding recv_frame
    broken_payload len block small ge lost =
        let hdr : List ℕ = header_bytes n m in
        let more : List ℕ = drop (length hdr) (pending s) in
        let parts : pending s ≡ hdr ++ more = prefix_split (pending s) missing hdr xs e ge in
        let head : HeaderRead n m s more = header_read n m s more (omega arith) k parts in
        let two : 2 ≤ length hdr = header_two n m in
        let lens : length (pending s) + length missing ≡ length hdr + length xs =
          omega (arith, length-append (pending s) missing, ap length e, length-append hdr xs) in
        let late : ltb (length (pending s)) 2 ≡ false = ground arith in
        let late' : ltb (length (pending s)) (length hdr) ≡ false = ground arith in
        let short : length (pending head.next) < n =
          omega (arith, ap length head.behind, length-drop (length hdr) (pending s)) in
        rw
          (
            head.result,
            payload_short node
                (record { data_len = n; is_masked = has_mask m; mask_data = key_of m }) head.next
                block small short,
            late,
            late',
          )
          refl

  -- A connection that ends within a frame of less than 4 GiB, read into a block whose node is
  -- smaller than that, is reported as an error of its kind, which says how far the frame had come:
  -- within its first two bytes, its header, or its payload.
  pub recv_frame-broken :
      (node : ℕ) (m : Option ℕ) (xs : List ℕ) (s : State) (missing : List ℕ)
      → IsKey m
      → node < 2 ^ 32
      → length xs < 2 ^ 32
      → pending s ++ missing ≡ header_bytes (length xs) m ++ xs
      → 0 < length missing
      → recv_frame ch node s
        ≡ err (broken_at (length (pending s)) (length (header_bytes (length xs) m)))
  recv_frame-broken node m xs s missing k block small e lost =
      elim (dec_lt (length (pending s)) 2) [
        | yes lt ↦ broken_early node (length xs) m xs s missing e k lt
        | no ge ↦ elim (dec_lt (length (pending s)) (length (header_bytes (length xs) m))) [
          | yes lt ↦ broken_header node (length xs) m xs s missing e k (omega arith) lt
          | no ge' ↦
              broken_payload node (length xs) m xs s missing e k refl block small (omega arith) lost
        ]
      ]
