-- ===== src/Ws/Mask/Laws.antt =====
-- Both maskers against the rule of RFC 6455: byte `i` of the payload meets byte `i mod 4` of the key.
use Prim.Native.Nat.{bit_xor, bit_and}
use zktls_bench.Prelude.{
  ℕ, zero, suc, ◌+◌, ◌-◌, ◌*◌, ◌/◌, ◌%◌, ◌^◌, ◌<◌, ◌≤◌, ◌≡◌, refl, ap, ◌∙◌, sym, List, [], ◌∷◌,
  ◌++◌, get_or, length, All, All-take, take, drop, length-take, length-drop, take-append-drop,
  arith, append_assoc,
}
use zktls_bench.Prelude.Bytes.{le, from_le, le-from_le, from_le-le, IsByte}
use zktls_bench.Prelude.Bits.{bit_xor_fields, bit_xor-lt, bit_xor_twice, bit_and-le, bit_and_step}
use zktls_bench.Ws.Mask.{
  xor_words, xor_bytes, un_mask_data, xor_bytes_from, web_socket_message_unmask_payload,
}

-- The key goes round by one byte for each byte of the payload.
abbrev pub masked : ℕ → ℕ → ℕ → ℕ → List ℕ → List ℕ
masked k0 k1 k2 k3 [] = []
masked k0 k1 k2 k3 (x ∷ xs) = bit_xor x k0 ∷ masked k1 k2 k3 k0 xs

abbrev pub key_byte : ℕ → ℕ → ℕ
key_byte i key = get_or (le 4 key) i 0

-- The masked payload by the rule.
unfoldable pub mask_payload : ℕ → List ℕ → List ℕ
mask_payload key xs = masked (key_byte 0 key) (key_byte 1 key) (key_byte 2 key) (key_byte 3 key) xs

xor_pairs : List ℕ → List ℕ → List ℕ
xor_pairs (x ∷ xs) (y ∷ ys) = bit_xor x y ∷ xor_pairs xs ys
xor_pairs [] ys = []
xor_pairs (x ∷ xs) [] = []

-- An integer's exclusive or is that of its bytes.
bit_xor-from_le :
    (xs ys : List ℕ)
    → length xs ≡ length ys
    → All IsByte xs
    → All IsByte ys
    → bit_xor (from_le xs) (from_le ys) ≡ from_le (xor_pairs xs ys)
unfolding xor_pairs
bit_xor-from_le [] [] e hx hy = refl
bit_xor-from_le [] (y ∷ ys) e hx hy = absurd (omega arith)
bit_xor-from_le (x ∷ xs) [] e hx hy = absurd (omega arith)
bit_xor-from_le (x ∷ xs) (y ∷ ys) e hx hy = omega (
  arith,
  bit_xor_fields 8 (from_le xs) (from_le ys) x y hx.0 hy.0,
  ap (λ (t : ℕ). 256 * t) (bit_xor-from_le xs ys (omega arith) hx.1 hy.1),
)

xor_pairs-IsByte : (xs ys : List ℕ) → All IsByte xs → All IsByte ys → All IsByte (xor_pairs xs ys)
unfolding xor_pairs
xor_pairs-IsByte [] ys hx hy = tt
xor_pairs-IsByte (x ∷ xs) [] hx hy = tt
xor_pairs-IsByte (x ∷ xs) (y ∷ ys) hx hy =
    (bit_xor-lt 8 x y hx.0 hy.0, xor_pairs-IsByte xs ys hx.1 hy.1)

xor_word :
    (a b c d key : ℕ)
    → All IsByte (a ∷ b ∷ c ∷ d ∷ [])
    → key < 2 ^ 32
    → le 4 (bit_xor (from_le (a ∷ b ∷ c ∷ d ∷ [])) key) ≡ mask_payload key (a ∷ b ∷ c ∷ d ∷ [])
unfolding mask_payload xor_pairs
xor_word a b c d key h hk =
    ap (λ k. le 4 (bit_xor (from_le (a ∷ b ∷ c ∷ d ∷ [])) k)) (sym (from_le-le 4 key hk))
    ∙ ap (le 4) (bit_xor-from_le (a ∷ b ∷ c ∷ d ∷ []) (le 4 key) refl h (omega arith))
    ∙ le-from_le (xor_pairs (a ∷ b ∷ c ∷ d ∷ []) (le 4 key))
        (xor_pairs-IsByte (a ∷ b ∷ c ∷ d ∷ []) (le 4 key) h (omega arith))

module _ (key : ℕ) (hk : key < 2 ^ 32) where
  -- The word loop masks the words, and leaves the rest of the buffer to what follows.
  xor_words_lem :
      (n : ℕ) (rest : List ℕ → List ℕ) (xs ys : List ℕ)
      → length xs ≡ 4 * n
      → All IsByte xs
      → xor_words n key rest (xs ++ ys) ≡ mask_payload key xs ++ rest ys
  unfolding xor_words mask_payload
  xor_words_lem zero rest [] ys e h = refl
  xor_words_lem zero rest (x ∷ xs) ys e h = absurd (omega arith)
  xor_words_lem (suc n) rest [] ys e h = absurd (omega arith)
  xor_words_lem (suc n) rest (a ∷ []) ys e h = absurd (omega arith)
  xor_words_lem (suc n) rest (a ∷ b ∷ []) ys e h = absurd (omega arith)
  xor_words_lem (suc n) rest (a ∷ b ∷ c ∷ []) ys e h = absurd (omega arith)
  xor_words_lem (suc n) rest (a ∷ b ∷ c ∷ d ∷ xs) ys e h =
      ap (λ w. w ++ xor_words n key rest (xs ++ ys))
        (xor_word a b c d key (h.0, (h.1.0, (h.1.1.0, (h.1.1.1.0, tt)))) hk)
      ∙ ap (λ t. mask_payload key (a ∷ b ∷ c ∷ d ∷ []) ++ t)
          (xor_words_lem n rest xs ys (omega arith) h.1.1.1.1)

  xor_bytes_lem :
      (xs ys : List ℕ)
      → length xs < 4
      → xor_bytes (length xs) (le 4 key) (xs ++ ys) ≡ mask_payload key xs ++ ys
  unfolding xor_bytes mask_payload
  xor_bytes_lem [] ys h = refl
  xor_bytes_lem (a ∷ []) ys h = refl
  xor_bytes_lem (a ∷ b ∷ []) ys h = refl
  xor_bytes_lem (a ∷ b ∷ c ∷ []) ys h = refl
  xor_bytes_lem (a ∷ b ∷ c ∷ d ∷ xs) ys h = absurd (omega arith)

  xor_bytes_from_lem :
      (i : ℕ) (xs ys : List ℕ)
      → i % 4 ≡ 0
      → xor_bytes_from (length xs) i (le 4 key) (xs ++ ys) ≡ mask_payload key xs ++ ys
  unfolding xor_bytes_from mask_payload
  xor_bytes_from_lem i [] ys e = refl
  xor_bytes_from_lem i (a ∷ []) ys e = rw e
  xor_bytes_from_lem i (a ∷ b ∷ []) ys e = let e1 : (i + 1) % 4 ≡ 1 = omega arith in rw (e, e1)
  xor_bytes_from_lem i (a ∷ b ∷ c ∷ []) ys e =
      let e1 : (i + 1) % 4 ≡ 1 = omega arith in
      let e2 : (i + 1 + 1) % 4 ≡ 2 = omega arith in rw (e, e1, e2)
  xor_bytes_from_lem i (a ∷ b ∷ c ∷ d ∷ xs) ys e =
      let e1 : (i + 1) % 4 ≡ 1 = omega arith in
      let e2 : (i + 1 + 1) % 4 ≡ 2 = omega arith in
      let e3 : (i + 1 + 1 + 1) % 4 ≡ 3 = omega arith in
      rw (e, e1, e2, e3, xor_bytes_from_lem (i + 1 + 1 + 1 + 1) xs ys (omega arith))

  -- The rule splits at a multiple of four bytes.
  mask_payload-append :
      (n : ℕ) (xs ys : List ℕ)
      → length xs ≡ 4 * n
      → mask_payload key (xs ++ ys) ≡ mask_payload key xs ++ mask_payload key ys
  unfolding mask_payload
  mask_payload-append zero [] ys e = refl
  mask_payload-append zero (x ∷ xs) ys e = absurd (omega arith)
  mask_payload-append (suc n) [] ys e = absurd (omega arith)
  mask_payload-append (suc n) (a ∷ []) ys e = absurd (omega arith)
  mask_payload-append (suc n) (a ∷ b ∷ []) ys e = absurd (omega arith)
  mask_payload-append (suc n) (a ∷ b ∷ c ∷ []) ys e = absurd (omega arith)
  mask_payload-append (suc n) (a ∷ b ∷ c ∷ d ∷ xs) ys e =
      rw (mask_payload-append n xs ys (omega arith))

  un_mask_data_split :
      (n : ℕ) (ws ts rest : List ℕ)
      → length ws ≡ 4 * n
      → length ts < 4
      → All IsByte ws
      → un_mask_data (ws ++ (ts ++ rest)) (4 * n + length ts) key
        ≡ mask_payload key ws ++ (mask_payload key ts ++ rest)
  unfolding un_mask_data
  un_mask_data_split n ws ts rest e h b =
      let words : (4 * n + length ts) / 4 ≡ n = omega arith in
      let bytes : (4 * n + length ts) % 4 ≡ length ts = omega arith in
      rw (words, bytes)
        (xor_words_lem n (xor_bytes (length ts) (le 4 key)) ws (ts ++ rest) e b
          ∙ ap (λ t. mask_payload key ws ++ t) (xor_bytes_lem ts rest h))

  unmask_payload_split :
      (n : ℕ) (ws ts rest : List ℕ)
      → length ws ≡ 4 * n
      → bit_and (length ws + length ts) 0xffff_fffc ≡ 4 * n
      → All IsByte ws
      → web_socket_message_unmask_payload (ws ++ (ts ++ rest)) (length ws + length ts) key
        ≡ mask_payload key ws ++ (mask_payload key ts ++ rest)
  unfolding web_socket_message_unmask_payload
  unmask_payload_split n ws ts rest e end b =
      let words : 4 * n / 4 ≡ n = omega arith in
      let tail : length ws + length ts - 4 * n ≡ length ts = omega arith in
      rw (end, words, tail)
        (xor_words_lem n (xor_bytes_from (length ts) (4 * n) (le 4 key)) ws (ts ++ rest) e b
          ∙ ap (λ t. mask_payload key ws ++ t) (xor_bytes_from_lem (4 * n) ts rest (omega arith)))

-- `~3u` takes the two low bits off, and gives at most the number itself.
mask_off : (x : ℕ) → bit_and x 0xffff_fffc % 4 ≡ 0
mask_off x = omega (arith, bit_and_step x 0xffff_fffc, bit_and_step (x / 2) 0x7fff_fffe)

module _ (key : ℕ) (hk : key < 2 ^ 32) (xs rest : List ℕ) (hx : All IsByte xs) where
  split_at :
      (w : ℕ)
      → w ≤ length xs
      → (length (take w xs) ≡ w)
        × (length (take w xs) + length (drop w xs) ≡ length xs)
        × (xs ++ rest ≡ take w xs ++ (drop w xs ++ rest))
  split_at w h = (
    omega (arith, length-take w xs),
    omega (arith, length-take w xs, length-drop w xs),
    ap (λ l. l ++ rest) (sym (take-append-drop w xs)) ∙ append_assoc (take w xs) (drop w xs) rest,
  )

  -- the rule on both parts together
  joined :
      (n w : ℕ)
      → w ≡ 4 * n
      → w ≤ length xs
      → mask_payload key (take w xs) ++ (mask_payload key (drop w xs) ++ rest)
        ≡ mask_payload key xs ++ rest
  joined n w e h =
      sym (append_assoc (mask_payload key (take w xs)) (mask_payload key (drop w xs)) rest)
      ∙ ap (λ l. l ++ rest)
          (sym (mask_payload-append key hk n (take w xs) (drop w xs) (omega (arith, split_at w h)))
            ∙ ap (mask_payload key) (take-append-drop w xs))

  -- `UnMaskData` masks the first `len` bytes by the rule, and leaves those behind them alone.
  pub un_mask_data_lem : un_mask_data (xs ++ rest) (length xs) key ≡ mask_payload key xs ++ rest
  un_mask_data_lem =
      let n : ℕ = length xs / 4 in
      let w : ℕ = 4 * n in
      let h : w ≤ length xs = omega arith in
      let len : length xs ≡ 4 * n + length (drop w xs) = omega (arith, split_at w h) in
      ap (λ l. un_mask_data l (length xs) key) (split_at w h).2
      ∙ ap (λ l. un_mask_data (take w xs ++ (drop w xs ++ rest)) l key) len
      ∙ un_mask_data_split key hk n (take w xs) (drop w xs) rest (split_at w h).0
          (omega (arith, split_at w h)) (All-take IsByte w xs hx)
      ∙ joined n w refl h

  -- `WebSocketMessageUnmaskPayload` does the same, also on a payload of 2^32 bytes or more, where its
  -- word loop stops early.
  pub web_socket_message_unmask_payload_lem :
      web_socket_message_unmask_payload (xs ++ rest) (length xs) key ≡ mask_payload key xs ++ rest
  web_socket_message_unmask_payload_lem =
      let w : ℕ = bit_and (length xs) 0xffff_fffc in
      let n : ℕ = w / 4 in
      let h : w ≤ length xs = bit_and-le (length xs) (length xs) 0xffff_fffc (omega arith) in
      let four : w ≡ 4 * n = omega (arith, mask_off (length xs)) in
      let len : length xs ≡ length (take w xs) + length (drop w xs) = omega (arith, split_at w h) in
      ap (λ l. web_socket_message_unmask_payload l (length xs) key) (split_at w h).2
      ∙ ap (λ l. web_socket_message_unmask_payload (take w xs ++ (drop w xs ++ rest)) l key) len
      ∙ unmask_payload_split key hk n (take w xs) (drop w xs) rest
          (omega (arith, split_at w h, four)) (ap (λ l. bit_and l 0xffff_fffc) (sym len) ∙ four)
          (All-take IsByte w xs hx)
      ∙ joined n w four h

masked_twice :
    (k0 k1 k2 k3 : ℕ) (xs : List ℕ)
    → IsByte k0
    → IsByte k1
    → IsByte k2
    → IsByte k3
    → All IsByte xs
    → masked k0 k1 k2 k3 (masked k0 k1 k2 k3 xs) ≡ xs
masked_twice k0 k1 k2 k3 [] h0 h1 h2 h3 h = refl
masked_twice k0 k1 k2 k3 (x ∷ xs) h0 h1 h2 h3 h =
    rw (bit_xor_twice 8 x k0 h.0 h0, masked_twice k1 k2 k3 k0 xs h1 h2 h3 h0 h.1)

-- Masking twice with one key gives the payload back.
pub mask_payload_twice :
    (key : ℕ) (xs : List ℕ) → All IsByte xs → mask_payload key (mask_payload key xs) ≡ xs
unfolding mask_payload
mask_payload_twice key xs h =
    masked_twice _ _ _ _ xs (omega arith) (omega arith) (omega arith) (omega arith) h
