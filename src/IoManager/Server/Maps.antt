-- ===== src/IoManager/Server/Maps.antt =====
-- The maps of the connection manager: their keys stay in order, and what they hold.
use zktls_bench.Prelude.{
  ℕ, ◌<◌, ◌≡◌, refl, Bool, true, false, not, ◌&&◌, ◌||◌, Bool-cases, inl, inr, none, some,
  Option-cases, set, List, [], ◌∷◌, ◌++◌, ◌==◌, arith,
}
use zktls_bench.Errors.{ok}
use zktls_bench.IoManager.Ports.{Ports, free_used_port}
use zktls_bench.IoManager.Manager.{
  Slots, IoManager, find_or, put_entry, erase, clear_old, is_old, place_io, fill_slot, is_some_null,
  find_full, accept,
}

module _ {A : Type 0} where
  abbrev pub Above : ℕ → List (ℕ × A) → Type 0
  Above a [] = Unit
  Above a (e ∷ es) = (a < e.0) × Above a es

  abbrev pub Sorted : List (ℕ × A) → Type 0
  Sorted [] = Unit
  Sorted (e ∷ es) = Above e.0 es × Sorted es

  abbrev pub has_key : ℕ → List (ℕ × A) → Bool
  has_key k [] = false
  has_key k (e ∷ es) = (e.0 == k) || has_key k es

  Above-trans : (a b : ℕ) (es : List (ℕ × A)) → a < b → Above b es → Above a es
  Above-trans a b [] h above = tt
  Above-trans a b (e ∷ es) h above = (omega (arith, above.0), Above-trans a b es h above.1)

  Above-put_entry :
      (a key : ℕ) (v : A) (es : List (ℕ × A)) → a < key → Above a es → Above a (put_entry key v es)
  unfolding put_entry
  Above-put_entry a key v [] h above = (h, tt)
  Above-put_entry a key v (e ∷ es) h above = ground (arith, Above-put_entry a key v es h above.1)

  pub Sorted-put_entry :
      (key : ℕ) (v : A) (es : List (ℕ × A)) → Sorted es → Sorted (put_entry key v es)
  unfolding put_entry
  Sorted-put_entry key v [] s = (tt, tt)
  Sorted-put_entry key v (e ∷ es) s =
      ground
        (arith, Above-put_entry e.0 key v es, Above-trans key e.0 es, Sorted-put_entry key v es s.1)

  Above-erase : (a key : ℕ) (es : List (ℕ × A)) → Above a es → Above a (erase key es)
  unfolding erase
  Above-erase a key [] h = tt
  Above-erase a key (e ∷ es) h = ground (arith, Above-erase a key es h.1)

  pub Sorted-erase : (key : ℕ) (es : List (ℕ × A)) → Sorted es → Sorted (erase key es)
  unfolding erase
  Sorted-erase key [] s = tt
  Sorted-erase key (e ∷ es) s = ground (arith, Above-erase e.0 key es s.0, Sorted-erase key es s.1)

  pub has_key-put_entry :
      (k key : ℕ) (v : A) (es : List (ℕ × A))
      → has_key k (put_entry key v es) ≡ ((key == k) || has_key k es)
  unfolding put_entry
  has_key-put_entry k key v [] = refl
  has_key-put_entry k key v (e ∷ es) = ground (arith, has_key-put_entry k key v es)

  Above-absent : (a : ℕ) (es : List (ℕ × A)) → Above a es → has_key a es ≡ false
  Above-absent a [] h = refl
  Above-absent a (e ∷ es) h = ground (arith, h.0, Above-absent a es h.1)

  pub has_key-erase :
      (k key : ℕ) (es : List (ℕ × A))
      → Sorted es
      → has_key k (erase key es) ≡ (not (key == k) && has_key k es)
  unfolding erase
  has_key-erase k key [] s = ground arith
  has_key-erase k key (e ∷ es) s =
      ground (arith, has_key-erase k key es s.1, Above-absent e.0 es s.0)

  pub find_or-absent :
      (d : A) (key : ℕ) (es : List (ℕ × A)) → has_key key es ≡ false → find_or d key es ≡ d
  unfolding find_or
  find_or-absent d key [] h = refl
  find_or-absent d key (e ∷ es) h = ground (arith, find_or-absent d key es)

module _ {Io : Type 0} where
  pub Sorted-clear_old :
      (force : Bool) (t : ℕ) (created : List (ℕ × ℕ)) (ios : List (ℕ × Slots Io))
      → Sorted ios
      → Sorted (clear_old force t created ios).1
  unfolding clear_old
  Sorted-clear_old force t [] ios s = s
  Sorted-clear_old force t (e ∷ es) ios s = elim (Bool-cases (force || is_old t e.1)) [
    | inl old ↦ rw old (Sorted-clear_old force t es (erase e.0 ios) (Sorted-erase e.0 ios s))
    | inr young ↦ rw young (Sorted-clear_old force t es ios s)
  ]

  -- Clearing adds no number.
  pub has_key-clear_old :
      (force : Bool) (t : ℕ) (created : List (ℕ × ℕ)) (ios : List (ℕ × Slots Io)) (k : ℕ)
      → Sorted ios
      → has_key k (clear_old force t created ios).1 ≡ true
      → has_key k ios ≡ true
  unfolding clear_old
  has_key-clear_old force t [] ios k s h = h
  has_key-clear_old force t (e ∷ es) ios k s h = ground (
    arith,
    has_key-clear_old force t es (erase e.0 ios) k (Sorted-erase e.0 ios s),
    has_key-clear_old force t es ios k s,
    has_key-erase k e.0 ios s,
  )

  -- The number of a connection that was placed has slots.
  pub record PlacedAt (m m' : IoManager Io) (number : ℕ) : Type 0 where
    pub vec : Slots Io
    pub known : has_key number m.pado_io_map ≡ true
    pub left : m' ≡ record m { pado_io_map = put_entry number vec m.pado_io_map }

  pub place_io-PlacedAt :
      (m : IoManager Io) (number i : ℕ) (io : Io) {m' : IoManager Io}
      → place_io m number i io ≡ ok m'
      → PlacedAt m m' number
  unfolding place_io fill_slot
  place_io-PlacedAt m number i io h = elim (Bool-cases (has_key number m.pado_io_map)) [
    | inl known ↦
        let vec : Slots Io = find_or [] number m.pado_io_map in
        let vec' : Slots Io = set vec i (some io) in
        elim (Bool-cases (is_some_null vec')) [
          | inl free ↦ record { vec = vec'; known = known; left = ground arith }
          | inr full ↦ record { vec = vec' ++ (none ∷ []); known = known; left = ground arith }
        ]
    | inr new ↦ absurd (ground (arith, find_or-absent [] number m.pado_io_map new))
  ]

  pub find_full-has_key :
      (num : ℕ) (es : List (ℕ × Slots Io)) (entry : ℕ × Slots Io)
      → find_full num es ≡ some entry
      → has_key entry.0 es ≡ true
  unfolding find_full
  find_full-has_key num [] entry h = absurd (ground (arith, h))
  find_full-has_key num (e ∷ es) entry h = ground (arith, find_full-has_key num es entry)

  -- An `accept` that does not wait takes out a number with slots, and gives it back.
  pub record AcceptedAt (m m' : IoManager Io) (ports ports' : Ports) : Type 0 where
    pub number : ℕ
    pub known : has_key number m.pado_io_map ≡ true
    pub same_map : m'.pado_io_map ≡ erase number m.pado_io_map
    pub freed : ports' ≡ free_used_port ports number

  pub accept-AcceptedAt :
      (num : ℕ) (m : IoManager Io) (ports : Ports) {ios : Slots Io} {m' : IoManager Io}
      {ports' : Ports}
      → accept num m ports ≡ some (ios, m', ports')
      → AcceptedAt m m' ports ports'
  unfolding accept
  accept-AcceptedAt num m ports h = elim (Option-cases (find_full num m.pado_io_map)) [
    | inl waits ↦ absurd (ground arith)
    | inr found ↦ record {
      number = found.0.0;
      known = find_full-has_key num m.pado_io_map found.0 found.1;
      same_map = ground arith;
      freed = ground arith;
    }
  ]
