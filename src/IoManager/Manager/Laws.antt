-- ===== src/IoManager/Manager/Laws.antt =====
-- What `accept` hands out: connections that are all there. Every step keeps the slots so.
use zktls_bench.Prelude.{
  ℕ, zero, suc, ◌<◌, ◌≤◌, ◌≡◌, refl, ap, ◌∙◌, Bool, true, false, ◌||◌, Option, none, some, ◌⊎◌, inl,
  inr, Bool-cases, List, [], ◌∷◌, ◌++◌, ltb, ◌==◌, length, take, set, replicate, arith, All,
  All-take, length-set, length-append, length-take, length-replicate, take_append_le,
}
use native.Mathlib.Decide.{dec_lt}
use zktls_bench.Errors.{Outcome, ok, fault}
use zktls_bench.IoManager.Ports.{Ports, free_used_port}
use zktls_bench.IoManager.Manager.{
  Slots, IoManager, new_io_manager, find_or, put_entry, erase, is_some_null, reserve_number,
  fill_slot, place_io, find_full, accept, clear_old, clear_pado_io, is_old,
}

module _ {A : Type 0} (P : A → Type 0) where
  -- Every entry satisfies `P`.
  abbrev pub Entries : List (ℕ × A) → Type 0
  Entries = All (λ (entry : ℕ × A). P entry.1)

  Entries-put_entry :
      (key : ℕ) (v : A) (es : List (ℕ × A)) → P v → Entries es → Entries (put_entry key v es)
  unfolding put_entry
  Entries-put_entry key v [] p h = (p, tt)
  Entries-put_entry key v (e ∷ es) p h = elim (Bool-cases (e.0 == key)) [
    | inl same ↦ rw same (p, h.1)
    | inr other ↦ elim (Bool-cases (ltb key e.0)) [
      | inl before ↦ rw (other, before) (p, h)
      | inr behind ↦ rw (other, behind) (h.0, Entries-put_entry key v es p h.1)
    ]
  ]

  Entries-erase : (key : ℕ) (es : List (ℕ × A)) → Entries es → Entries (erase key es)
  unfolding erase
  Entries-erase key [] h = tt
  Entries-erase key (e ∷ es) h = elim (Bool-cases (e.0 == key)) [
    | inl same ↦ rw same h.1
    | inr other ↦ rw other (h.0, Entries-erase key es h.1)
  ]

  Entries-find_or :
      (d : A) (key : ℕ) (es : List (ℕ × A))
      → Entries es
      → P (find_or d key es) ⊎ (find_or d key es ≡ d)
  unfolding find_or
  Entries-find_or d key [] h = inr refl
  Entries-find_or d key (e ∷ es) h = elim (Bool-cases (e.0 == key)) [
    | inl same ↦ rw same (inl h.0)
    | inr other ↦ rw other (Entries-find_or d key es h.1)
  ]

nulls : (Io : Type 0) (num : ℕ) → 0 < num → is_some_null {Io = Io} (replicate num none) ≡ true
unfolding is_some_null
nulls Io zero h = absurd (omega arith)
nulls Io (suc num) h = refl

module _ {Io : Type 0} where
  abbrev pub IsThere : Option Io → Type 0
  IsThere none = ⊥
  IsThere (some io) = Unit {0}

  -- The slots of a number: `num` of them with a null pointer among them, or more than `num`, of
  -- which the first `num` are taken.
  abbrev pub IsSlots : ℕ → Slots Io → Type 0
  IsSlots num vec =
      ((length vec ≡ num) × (is_some_null vec ≡ true))
      ⊎ ((num < length vec) × All IsThere (take num vec))

  pub record IsOrderly (num : ℕ) (m : IoManager Io) : Type 0 where
    pub slots : Entries (IsSlots num) m.pado_io_map

  pub new_io_manager-IsOrderly : (num : ℕ) → IsOrderly num (new_io_manager Io)
  new_io_manager-IsOrderly num = record { slots = tt }

  All-IsThere : (vec : Slots Io) → is_some_null vec ≡ false → All IsThere vec
  unfolding is_some_null
  All-IsThere [] h = tt
  All-IsThere (none ∷ vec) h = absurd (ground (arith, h))
  All-IsThere (some io ∷ vec) h = (tt, All-IsThere vec h)

  set-IsThere :
      (n : ℕ) (vec : Slots Io) (i : ℕ) (io : Io)
      → All IsThere (take n vec)
      → All IsThere (take n (set vec i (some io)))
  set-IsThere zero vec i io h = tt
  set-IsThere (suc n) [] i io h = tt
  set-IsThere (suc n) (x ∷ vec) zero io h = (tt, h.1)
  set-IsThere (suc n) (x ∷ vec) (suc i) io h = (h.0, set-IsThere n vec i io h.1)

  -- Slots that a connection was put into, and the null pointer behind full ones.
  closed :
      (num : ℕ) (vec : Slots Io)
      → num ≤ length vec
      → All IsThere (take num vec)
      → IsSlots num (vec ++ (none ∷ []))
  closed num vec h k =
      inr
        (omega (arith, length-append vec (none ∷ [])), rw (take_append_le num vec (none ∷ []) h) k)

  record Filled (num : ℕ) (vec : Slots Io) (i : ℕ) (io : Io) : Type 0 where
    vec' : Slots Io
    result : fill_slot vec i io ≡ some vec'
    slots : IsSlots num vec'

  -- With whether a slot is still free after it.
  filled :
      (num : ℕ) (vec : Slots Io) (i : ℕ) (io : Io)
      → i < length vec
      → num ≤ length vec
      → (is_some_null (set vec i (some io)) ≡ true → IsSlots num (set vec i (some io)))
      → Filled num vec i io
  unfolding fill_slot
  filled num vec i io h le open' =
      let here : ltb i (length vec) ≡ true = ground arith in
      let vec1 : Slots Io = set vec i (some io) in
      elim (Bool-cases (is_some_null vec1)) [
        | inl free ↦ record { vec' = vec1; result = rw (here, free) refl; slots = open' free }
        | inr full ↦ record {
          vec' = vec1 ++ (none ∷ []);
          result = rw (here, full) refl;
          slots =
              closed num vec1 (omega (arith, length-set vec i (some io)))
                (All-take IsThere num vec1 (All-IsThere vec1 full));
        }
      ]

  fill_slot-Filled :
      (num : ℕ) (vec : Slots Io) (i : ℕ) (io : Io)
      → IsSlots num vec
      → i < length vec
      → Filled num vec i io
  fill_slot-Filled num vec i io s h = elim s [
    | inl waiting ↦
        filled num vec i io h (omega (arith, waiting.0))
          (λ free. inl (length-set vec i (some io) ∙ waiting.0, free))
    | inr done ↦ filled num vec i io h (omega (arith, done.0)) (λ free.
        inr (omega (arith, done.0, length-set vec i (some io)), set-IsThere num vec i io done.1))
  ]

  -- A connection was placed, and the slots are still in order.
  pub record Placed (result : Outcome (IoManager Io)) (num : ℕ) : Type 0 where
    pub m' : IoManager Io
    pub placed : result ≡ ok m'
    pub order : IsOrderly num m'

  -- The second section of `init_pado_io`: a connection with an index below the number of slots of
  -- its number is placed, and full slots are closed with a null pointer.
  pub place_io-Placed :
      (num : ℕ) (m : IoManager Io) (number i : ℕ) (io : Io)
      → IsOrderly num m
      → i < length (find_or [] number m.pado_io_map)
      → Placed (place_io m number i io) num
  unfolding place_io
  place_io-Placed num m number i io h lt =
      let vec : Slots Io = find_or [] number m.pado_io_map in
      let known : IsSlots num vec =
        elim (Entries-find_or (IsSlots num) [] number m.pado_io_map h.slots) [
          | inl s ↦ s
          | inr new ↦ absurd (omega (arith, ap length new))
        ] in
      let f : Filled num vec i io = fill_slot-Filled num vec i io known lt in
      record {
        m' = record m { pado_io_map = put_entry number f.vec' m.pado_io_map };
        placed = rw (f.result, place_io) refl;
        order = record {
          slots = Entries-put_entry (IsSlots num) number f.vec' m.pado_io_map f.slots h.slots;
        };
      }

  -- Any other index is undefined behaviour: the peer's number and index are not checked.
  pub place_io_fault :
      (m : IoManager Io) (number i : ℕ) (io : Io)
      → length (find_or [] number m.pado_io_map) ≤ i
      → place_io m number i io ≡ fault
  unfolding place_io fill_slot
  place_io_fault m number i io h =
      let behind : ltb i (length (find_or [] number m.pado_io_map)) ≡ false = ground arith in
      rw (behind, place_io) refl

  -- The first section of `init_pado_io`, for a number that has no slots yet.
  pub reserve_number-IsOrderly :
      (num : ℕ) (m : IoManager Io) (number timestamp : ℕ)
      → 0 < num
      → find_or [] number m.pado_io_map ≡ []
      → IsOrderly num m
      → IsOrderly num (reserve_number m num number timestamp)
  unfolding reserve_number
  reserve_number-IsOrderly num m number timestamp p new h = record {
    slots = rw new (
        Entries-put_entry (IsSlots num) number (replicate num none) m.pado_io_map
          (inl (length-replicate num none, nulls Io num p)) h.slots);
  }

  clear_old-Entries :
      (P : Slots Io → Type 0) (force : Bool) (t : ℕ) (created : List (ℕ × ℕ))
      (ios : List (ℕ × Slots Io))
      → Entries P ios
      → Entries P (clear_old force t created ios).1
  unfolding clear_old
  clear_old-Entries P force t [] ios h = h
  clear_old-Entries P force t (e ∷ es) ios h = elim (Bool-cases (force || is_old t e.1)) [
    | inl old ↦ rw old (clear_old-Entries P force t es (erase e.0 ios) (Entries-erase P e.0 ios h))
    | inr young ↦ rw young (clear_old-Entries P force t es ios h)
  ]

  -- `clear_pado_io` keeps the slots in order.
  pub clear_pado_io-IsOrderly :
      (num : ℕ) (force : Bool) (t : ℕ) (m : IoManager Io)
      → IsOrderly num m
      → IsOrderly num (clear_pado_io force t m)
  unfolding clear_pado_io
  clear_pado_io-IsOrderly num force t m h =
      elim (Bool-cases (force || is_old t m.previous_check_timestamp)) [
        | inl now ↦ rw now (record {
          slots =
              clear_old-Entries (IsSlots num) force t m.created_timestamp_map m.pado_io_map h.slots;
        })
        | inr later ↦ rw later h
      ]

  -- What an `accept` that does not wait hands out.
  pub record Accepted (result : Option (Slots Io × IoManager Io × Ports)) (num : ℕ)
      (m : IoManager Io) (ports : Ports) : Type 0 where
    pub number : ℕ
    pub ios : Slots Io
    pub m' : IoManager Io
    pub accepted : result ≡ some (ios, m', free_used_port ports number)
    pub count : length ios ≡ num
    pub there : All IsThere ios
    pub order : IsOrderly num m'

  record Full (num : ℕ) (es : List (ℕ × Slots Io)) : Type 0 where
    entry : ℕ × Slots Io
    found : find_full num es ≡ some entry
    more : num < length entry.1
    slots : IsSlots num entry.1

  find_full-Full :
      (num : ℕ) (es : List (ℕ × Slots Io))
      → Entries (IsSlots num) es
      → (find_full num es ≡ none) ⊎ Full num es
  unfolding find_full
  find_full-Full num [] h = inl refl
  find_full-Full num (e ∷ es) h = elim (dec_lt num (length e.1)) [
    | yes lt ↦
        let yes' : ltb num (length e.1) ≡ true = ground arith in
        inr (record { entry = e; found = rw yes' refl; more = lt; slots = h.0 })
    | no ge ↦
        let no' : ltb num (length e.1) ≡ false = ground arith in
        elim (find_full-Full num es h.1) [
          | inl none_left ↦ inl (rw no' none_left)
          | inr f ↦
              inr
                (record { entry = f.entry; found = rw no' f.found; more = f.more; slots = f.slots })
        ]
  ]

  -- `accept` waits, or it hands out exactly `num` connections, none of them a null pointer, gives
  -- their number back, and leaves the rest in order.
  pub accept-Accepted :
      (num : ℕ) (m : IoManager Io) (ports : Ports)
      → IsOrderly num m
      → (accept num m ports ≡ none) ⊎ Accepted (accept num m ports) num m ports
  unfolding accept
  accept-Accepted num m ports h = elim (find_full-Full num m.pado_io_map h.slots) [
    | inl waits ↦ inl (rw (waits, accept) refl)
    | inr f ↦ inr (record {
      number = f.entry.0;
      ios = take num f.entry.1;
      m' = record m {
        pado_io_map = erase f.entry.0 m.pado_io_map;
        created_timestamp_map = erase f.entry.0 m.created_timestamp_map;
      };
      accepted = rw (f.found, accept) refl;
      count = omega (arith, length-take num f.entry.1, f.more);
      there = elim f.slots [
        | inl waiting ↦ absurd (omega (arith, waiting.0, f.more))
        | inr done ↦ done.1
      ];
      order = record { slots = Entries-erase (IsSlots num) f.entry.0 m.pado_io_map h.slots };
    })
  ]
