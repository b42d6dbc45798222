-- ===== src/Ws/Recv/Chunks.antt =====
-- The receive context in chunk mode: a list sorted by id, from which chunks are taken by id.
use zktls_bench.Prelude.{
  ℕ, ◌≤◌, ◌≡◌, refl, ◌≢◌, true, false, none, some, List, [], ◌∷◌, ltb, ◌==◌, arith, All, Bool-cases,
  inl, inr,
}
use zktls_bench.Ws.Recv.{RecvBuffer, insert_chunk, take_chunk}

-- Each id is at most those behind it.
abbrev pub IsSorted : List RecvBuffer → Type 0
IsSorted [] = Unit {0}
IsSorted (c ∷ cs) = All (λ (b : RecvBuffer). c.id ≤ b.id) cs × IsSorted cs

-- No node has the id.
abbrev pub Absent : ℕ → List RecvBuffer → Type 0
Absent id cs = All (λ (b : RecvBuffer). b.id ≢ id) cs

pub All-insert_chunk {κ} :
    (P : RecvBuffer → Type κ) (c : RecvBuffer) (cs : List RecvBuffer)
    → P c
    → All P cs
    → All P (insert_chunk c cs)
unfolding insert_chunk
All-insert_chunk P c [] p h = (p, h)
All-insert_chunk P c (b ∷ bs) p h = elim (Bool-cases (ltb c.id b.id)) [
  | inl less ↦ rw less (p, h)
  | inr more ↦ rw more (h.0, All-insert_chunk P c bs p h.1)
]

above_trans :
    (lo hi : ℕ) (cs : List RecvBuffer)
    → lo ≤ hi
    → All (λ (b : RecvBuffer). hi ≤ b.id) cs
    → All (λ (b : RecvBuffer). lo ≤ b.id) cs
above_trans lo hi [] h k = tt
above_trans lo hi (c ∷ cs) h k = (omega (arith, k.0), above_trans lo hi cs h k.1)

-- `PutToRecvCtx` keeps the list sorted by id.
pub insert_chunk-IsSorted :
    (c : RecvBuffer) (cs : List RecvBuffer) → IsSorted cs → IsSorted (insert_chunk c cs)
unfolding insert_chunk
insert_chunk-IsSorted c [] h = (tt, tt)
insert_chunk-IsSorted c (b ∷ bs) h = elim (Bool-cases (ltb c.id b.id)) [
  | inl less ↦
      let lt : c.id ≤ b.id = ground arith in rw less ((lt, above_trans c.id b.id bs lt h.0), h)
  | inr more ↦
      let ge : b.id ≤ c.id = ground arith in
      rw more (
        All-insert_chunk (λ (x : RecvBuffer). b.id ≤ x.id) c bs ge h.0,
        insert_chunk-IsSorted c bs h.1,
      )
]

-- The order in which chunks of different ids come in does not matter, whatever the list.
pub insert_chunk_comm :
    (a b : RecvBuffer) (cs : List RecvBuffer)
    → a.id ≢ b.id
    → insert_chunk a (insert_chunk b cs) ≡ insert_chunk b (insert_chunk a cs)
unfolding insert_chunk
insert_chunk_comm a b [] h = ground (arith, h)
insert_chunk_comm a b (c ∷ cs) h = ground (arith, h, insert_chunk_comm a b cs h)

-- Looking for an id that is not there finds nothing and changes nothing.
pub take_chunk-Absent :
    (id : ℕ) (cs : List RecvBuffer) → Absent id cs → take_chunk id cs ≡ (none, cs)
unfolding take_chunk
take_chunk-Absent id [] h = refl
take_chunk-Absent id (b ∷ bs) h =
    let differ : (b.id == id) ≡ false = ground (arith, h.0) in
    rw (take_chunk-Absent id bs h.1, differ) (ground arith)

-- A chunk that was put in is found under its id, if no other chunk had it, and taking it out leaves
-- the list as it was.
pub take_chunk-insert_chunk :
    (c : RecvBuffer) (cs : List RecvBuffer)
    → Absent c.id cs
    → take_chunk c.id (insert_chunk c cs) ≡ (some c, cs)
unfolding take_chunk insert_chunk
take_chunk-insert_chunk c [] h = ground arith
take_chunk-insert_chunk c (b ∷ bs) h =
    let differ : (b.id == c.id) ≡ false = ground (arith, h.0) in
    elim (Bool-cases (ltb c.id b.id)) [
      | inl less ↦ let same : (c.id == c.id) ≡ true = ground arith in rw (less, same) refl
      | inr more ↦ rw (more, take_chunk-insert_chunk c bs h.1, differ, more) refl
    ]
