-- ===== src/IoManager/Ports/Laws.antt =====
-- The port map as a set of numbers.
use Prim.Native.Nat.{bit_and, bit_or}
use zktls_bench.Prelude.{
  ℕ, zero, suc, ◌+◌, ◌-◌, ◌*◌, ◌/◌, ◌%◌, ◌^◌, ◌<◌, ◌≤◌, ◌≡◌, refl, ap, sym, ◌∙◌, ◌≢◌, true, false,
  not, ◌&&◌, ◌||◌, Option, none, some, List, [], ◌∷◌, ◌==◌, ltb, if◌then◌else◌, get_or, set, arith,
  length, length-set, min, Bool-cases, inl, inr,
}
use native.Mathlib.Decide.{ℕ_discrete}
use native.Mathlib.Nat.{pow-suc}
use zktls_bench.Prelude.Bits.{
  bit_of, bit_of-bit_and, bit_of-bit_or, bit_of-le-one, bit_of-pow_self, bit_of-pow_ne,
  bit_of-complement, bit_and-pow,
}
use zktls_bench.IoManager.Ports.{
  Ports, in_use, mark_port, next_seq, get_unused_port, free_used_port, new_ports,
}

pow_pos : (k : ℕ) → 0 < 2 ^ k
pow_pos zero = omega arith
pow_pos (suc k) = omega (arith, pow_pos k, pow-suc 2 k)

pow_lt : (k n : ℕ) → k < n → 2 ^ k < 2 ^ n
pow_lt k zero h = absurd (omega arith)
pow_lt zero (suc n) h = omega (arith, pow_pos n, pow-suc 2 n)
pow_lt (suc k) (suc n) h = omega (arith, pow_lt k n (omega arith), pow-suc 2 k, pow-suc 2 n)

-- The bit of a number in the map.
abbrev bit : List ℕ → ℕ → ℕ
bit m q = bit_of (q % 64) (get_or m (q / 64) 0)

pow_bit : (b k : ℕ) → b ≤ 1 → not (b * 2 ^ k == 0) ≡ (b == 1)
pow_bit zero k h = ground arith
pow_bit (suc zero) k h = ground (arith, pow_pos k)
pow_bit (suc (suc b)) k h = absurd (omega arith)

in_use-bit : (m : List ℕ) (q : ℕ) → in_use m q ≡ (bit m q == 1)
unfolding in_use
in_use-bit m q =
    rw (bit_and-pow (q % 64) (get_or m (q / 64) 0))
      (pow_bit (bit m q) (q % 64) (bit_of-le-one (q % 64) (get_or m (q / 64) 0)))

module _ {ℓ} {A : Type ℓ} where
  get_or-set_self : (xs : List A) (i : ℕ) (v d : A) → i < length xs → get_or (set xs i v) i d ≡ v
  get_or-set_self [] i v d h = absurd (omega arith)
  get_or-set_self (x ∷ xs) zero v d h = refl
  get_or-set_self (x ∷ xs) (suc i) v d h = get_or-set_self xs i v d (omega arith)

  get_or-set_ne :
      (xs : List A) (i j : ℕ) (v d : A) → i ≢ j → get_or (set xs i v) j d ≡ get_or xs j d
  get_or-set_ne [] i j v d h = refl
  get_or-set_ne (x ∷ xs) zero zero v d h = absurd (h refl)
  get_or-set_ne (x ∷ xs) zero (suc j) v d h = refl
  get_or-set_ne (x ∷ xs) (suc i) zero v d h = refl
  get_or-set_ne (x ∷ xs) (suc i) (suc j) v d h = get_or-set_ne xs i j v d (λ e. h (ap suc e))

-- A number whose word is in the map.
abbrev pub HasWord : List ℕ → ℕ → Type 0
HasWord m p = p / 64 < length m

bit-mark_self : (m : List ℕ) (p : ℕ) → HasWord m p → bit (mark_port m p) p ≡ 1
unfolding mark_port
bit-mark_self m p h =
    rw (get_or-set_self m (p / 64) (bit_or (get_or m (p / 64) 0) (2 ^ (p % 64))) 0 h) (
      omega (
        arith,
        bit_of-bit_or (p % 64) (get_or m (p / 64) 0) (2 ^ (p % 64)),
        bit_of-pow_self (p % 64),
        bit_of-le-one (p % 64) (get_or m (p / 64) 0),
      ))

bit-mark_word :
    (m : List ℕ) (p q : ℕ)
    → HasWord m p
    → p / 64 ≡ q / 64
    → p % 64 ≢ q % 64
    → bit (mark_port m p) q ≡ bit m q
unfolding mark_port
bit-mark_word m p q h e d =
    rw (sym e, get_or-set_self m (p / 64) (bit_or (get_or m (p / 64) 0) (2 ^ (p % 64))) 0 h)
      (omega (
        arith,
        bit_of-bit_or (q % 64) (get_or m (p / 64) 0) (2 ^ (p % 64)),
        bit_of-pow_ne (q % 64) (p % 64) (λ x. d (sym x)),
      ))

bit-mark_ne : (m : List ℕ) (p q : ℕ) → HasWord m p → q ≢ p → bit (mark_port m p) q ≡ bit m q
unfolding mark_port
bit-mark_ne m p q h d = elim (ℕ_discrete (p / 64) (q / 64)) [
  | yes e ↦ bit-mark_word m p q h e (λ x. d (omega (arith, e, x)))
  | no ne ↦
      rw (get_or-set_ne m (p / 64) (q / 64) (bit_or (get_or m (p / 64) 0) (2 ^ (p % 64))) 0 ne) refl
]

-- A marked number is in use, and nothing else changes.
pub in_use-mark_port :
    (m : List ℕ) (p q : ℕ) → HasWord m p → in_use (mark_port m p) q ≡ ((q == p) || in_use m q)
in_use-mark_port m p q h = elim (ℕ_discrete q p) [
  | yes e ↦
      let same : (p == p) ≡ true = ground arith in
      rw (e, in_use-bit (mark_port m p) p, bit-mark_self m p h, same) refl
  | no d ↦
      let differ : (q == p) ≡ false = ground (arith, d) in
      rw (in_use-bit (mark_port m p) q, in_use-bit m q, bit-mark_ne m p q h d, differ) refl
]

-- The bit of a word with one bit taken out.
cleared :
    (k j x : ℕ)
    → k < 64
    → j < 64
    → bit_of k (bit_and x (2 ^ 64 - 1 - 2 ^ j)) ≡ min (bit_of k x) (1 - bit_of k (2 ^ j))
cleared k j x h l =
    bit_of-bit_and k x (2 ^ 64 - 1 - 2 ^ j)
    ∙ ap (min (bit_of k x)) (bit_of-complement k 64 (2 ^ j) h (pow_lt j 64 l))

bit-free :
    (m : List ℕ) (p q : ℕ)
    → HasWord m p
    → (port_seq : ℕ)
    → bit (free_used_port (record { port_map = m; port_seq = port_seq }) p).port_map q
      ≡ (if q == p then 0 else bit m q)
unfolding free_used_port
bit-free m p q h s =
    let k : ℕ = q % 64 in
    let w : ℕ = get_or m (p / 64) 0 in
    let v : ℕ = bit_and w (2 ^ 64 - 1 - 2 ^ (p % 64)) in
    elim (ℕ_discrete (p / 64) (q / 64)) [
      | no ne ↦
          let differ : (q == p) ≡ false = ground (arith, ne) in
          rw (get_or-set_ne m (p / 64) (q / 64) v 0 ne, differ) refl
      | yes e ↦ elim (ℕ_discrete (p % 64) (q % 64)) [
        | yes f ↦
            let same : (q == p) ≡ true = ground (arith, e, f) in
            rw (sym e, get_or-set_self m (p / 64) v 0 h, same)
              (cleared k (p % 64) w (omega arith) (omega arith)
                ∙ omega (arith, ap (λ j. bit_of k (2 ^ j)) f, bit_of-pow_self k))
        | no d ↦
            let differ : (q == p) ≡ false = ground (arith, e, d) in
            rw (sym e, get_or-set_self m (p / 64) v 0 h, differ)
              (cleared k (p % 64) w (omega arith) (omega arith)
                ∙ omega (arith, bit_of-pow_ne k (p % 64) (λ x. d (sym x)), bit_of-le-one k w))
      ]
    ]

-- `free_used_port` takes a number out of the map, and nothing else changes.
pub in_use-free_used_port :
    (ports : Ports) (p q : ℕ)
    → HasWord ports.port_map p
    → in_use (free_used_port ports p).port_map q ≡ (not (q == p) && in_use ports.port_map q)
in_use-free_used_port ports p q h = elim (Bool-cases (q == p)) [
  | inl e ↦
      rw
        (
          in_use-bit (free_used_port ports p).port_map q,
          bit-free ports.port_map p q h ports.port_seq,
          e,
        )
        refl
  | inr e ↦
      rw
        (
          in_use-bit (free_used_port ports p).port_map q,
          in_use-bit ports.port_map q,
          bit-free ports.port_map p q h ports.port_seq,
          e,
        )
        refl
]

-- A port number: zero is never given out.
abbrev pub IsPort : ℕ → Type 0
IsPort p = (0 < p) × (p < 1024)

-- The search begins at a port number, and the map has a bit for every one.
pub record IsPorts (ports : Ports) : Type 0 where
  pub seq : IsPort ports.port_seq
  pub words : length ports.port_map ≡ 16

pub new_ports-IsPorts : IsPorts new_ports
new_ports-IsPorts = record { seq = (omega arith, omega arith); words = refl }

pub next_seq-IsPort : (p : ℕ) → IsPort p → IsPort (next_seq p)
unfolding next_seq
next_seq-IsPort p h = ground (arith, h)

-- The rounds from one number to another.
abbrev distance : ℕ → ℕ → ℕ
distance p q = if ltb q p then 1023 - p + q else q - p

distance-next_seq :
    (p q : ℕ) → IsPort p → IsPort q → p ≢ q → suc (distance (next_seq p) q) ≡ distance p q
unfolding next_seq
distance-next_seq p q h k d = ground (arith, h, k, d)

-- A port that was given out: it was free, it is in use now, no other number changes, and the ports
-- stay in order.
pub record Given (result : Option (ℕ × Ports)) (ports : Ports) : Type 0 where
  pub port : ℕ
  pub ports' : Ports
  pub given : result ≡ some (port, ports')
  pub valid : IsPort port
  pub was_free : in_use ports.port_map port ≡ false
  pub now_used : (q : ℕ) → in_use ports'.port_map q ≡ ((q == port) || in_use ports.port_map q)
  pub order : IsPorts ports'

pub get_unused_port-Given_here :
    (fuel : ℕ) (ports : Ports)
    → IsPorts ports
    → in_use ports.port_map ports.port_seq ≡ false
    → Given (get_unused_port (suc fuel) ports) ports
unfolding get_unused_port mark_port
get_unused_port-Given_here fuel ports h free = record {
  port = ports.port_seq;
  ports' = record {
    port_map = mark_port ports.port_map ports.port_seq;
    port_seq = next_seq ports.port_seq;
  };
  given = rw free refl;
  valid = h.seq;
  was_free = free;
  now_used = λ q. in_use-mark_port ports.port_map ports.port_seq q (omega (arith, h.seq, h.words));
  order = record {
    seq = next_seq-IsPort ports.port_seq h.seq;
    words = length-set ports.port_map (ports.port_seq / 64) _ ∙ h.words;
  };
}

not_both : (m : List ℕ) {p q : ℕ} → in_use m p ≡ true → in_use m q ≡ false → p ≢ q
not_both m h k e =
    let clash : true ≡ false = sym h ∙ ap (in_use m) e ∙ k in absurd (ground (arith, clash))

search_from :
    (fuel : ℕ) (ports : Ports) (q : ℕ)
    → IsPorts ports
    → IsPort q
    → in_use ports.port_map q ≡ false
    → distance ports.port_seq q < fuel
    → Given (get_unused_port fuel ports) ports
unfolding get_unused_port
search_from zero ports q h k free f = absurd (omega arith)
search_from (suc fuel) ports q h k free f =
    elim (Bool-cases (in_use ports.port_map ports.port_seq)) [
      | inr here ↦ get_unused_port-Given_here fuel ports h here
      | inl taken ↦
          let moved : Ports = record ports { port_seq = next_seq ports.port_seq } in
          let differ : ports.port_seq ≢ q = not_both ports.port_map taken free in
          let later : Given (get_unused_port fuel moved) moved =
            search_from fuel moved q
              (record { seq = next_seq-IsPort ports.port_seq h.seq; words = h.words }) k free
              (omega (arith, distance-next_seq ports.port_seq q h.seq k differ)) in
          record {
            port = later.port;
            ports' = later.ports';
            given = rw taken later.given;
            valid = later.valid;
            was_free = later.was_free;
            now_used = later.now_used;
            order = later.order;
          }
    ]

-- `get_unused_port` with fuel for 1023 rounds gives a port that was free and marks it alone, as long
-- as some port number is free.
pub get_unused_port-Given :
    (ports : Ports) (q : ℕ)
    → IsPorts ports
    → IsPort q
    → in_use ports.port_map q ≡ false
    → Given (get_unused_port 1023 ports) ports
get_unused_port-Given ports q h k free =
    search_from 1023 ports q h k free (within ports.port_seq q h.seq k)
  where
    within : (p q : ℕ) → IsPort p → IsPort q → distance p q < 1023
    within p q h k = ground (arith, h, k)

-- With every port number in use the search never ends, whatever the fuel.
pub get_unused_port_exhausted :
    (fuel : ℕ) (ports : Ports)
    → IsPorts ports
    → ((q : ℕ) → IsPort q → in_use ports.port_map q ≡ true)
    → get_unused_port fuel ports ≡ none
unfolding get_unused_port
get_unused_port_exhausted zero ports h full = refl
get_unused_port_exhausted (suc fuel) ports h full = rw (full ports.port_seq h.seq) (
    get_unused_port_exhausted fuel (record ports { port_seq = next_seq ports.port_seq })
      (record { seq = next_seq-IsPort ports.port_seq h.seq; words = h.words }) full)
