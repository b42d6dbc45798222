-- ===== src/IoManager/Server/Numbers.antt =====
-- Every number that the search gives was free, whatever the fuel; and giving a number back.
use zktls_bench.Prelude.{
  ℕ, zero, suc, ◌/◌, ◌≡◌, sym, subst, ◌∙◌, false, ◌||◌, Bool-cases, some, inl, inr, ◌==◌,
  length-set, arith,
}
use zktls_bench.IoManager.Ports.{Ports, in_use, get_unused_port, free_used_port, next_seq}
use zktls_bench.IoManager.Ports.Laws.{
  IsPort, IsPorts, HasWord, next_seq-IsPort, get_unused_port-Given_here,
}

pub record WasFree (ports : Ports) (r : ℕ × Ports) : Type 0 where
  pub valid : IsPort r.0
  pub was_free : in_use ports.port_map r.0 ≡ false
  pub now_used : (q : ℕ) → in_use r.1.port_map q ≡ ((q == r.0) || in_use ports.port_map q)
  pub order : IsPorts r.1

some-injective {ℓ} : {A : Type ℓ} {a b : A} → some a ≡ some b → a ≡ b
some-injective h = cc

pub get_unused_port-WasFree :
    (fuel : ℕ) (ports : Ports) (r : ℕ × Ports)
    → IsPorts ports
    → get_unused_port fuel ports ≡ some r
    → WasFree ports r
unfolding get_unused_port
get_unused_port-WasFree zero ports r h e = absurd (ground (arith, e))
get_unused_port-WasFree (suc fuel) ports r h e =
    elim (Bool-cases (in_use ports.port_map ports.port_seq)) [
      | inl used ↦
          let next : Ports = record ports { port_seq = next_seq ports.port_seq } in
          let w =
            get_unused_port-WasFree fuel next r
              (record { seq = next_seq-IsPort ports.port_seq h.seq; words = h.words })
              (ground arith) in
          record { valid = w.valid; was_free = w.was_free; now_used = w.now_used; order = w.order }
      | inr free ↦
          let g = get_unused_port-Given_here fuel ports h free in
          subst (WasFree ports) (some-injective (sym g.given ∙ e)) (record {
            valid = g.valid;
            was_free = g.was_free;
            now_used = g.now_used;
            order = g.order;
          })
    ]

pub free_used_port-IsPorts :
    (ports : Ports) (p : ℕ) → IsPorts ports → IsPorts (free_used_port ports p)
unfolding free_used_port
free_used_port-IsPorts ports p h = record {
  seq = h.seq;
  words = length-set ports.port_map (p / 64) _ ∙ h.words;
}

pub HasWord-of_port : (ports : Ports) (p : ℕ) → IsPorts ports → IsPort p → HasWord ports.port_map p
HasWord-of_port ports p h k = omega (arith, h.words, k)
