-- ===== src/Ws/FlushCtx.antt =====
-- `FlushCtx` of network/ws.h and network/ws.cpp: the packets that wait for the flush thread, oldest
-- first. A `FlushBuffer` is its payload. The mutex makes each operation one step. `asleep` says whether
-- the flush thread, the only one that waits on `cond`, is asleep there.
use zktls_bench.Prelude.{
  Bool, true, false, Option, none, some, List, [], ◌∷◌, ◌++◌, ℕ, ◌≡◌, refl, ap, length,
}

pub record FlushCtx : Type 0 where
  pub list : List (List ℕ)
  pub asleep : Bool

unfoldable pub new_flush_ctx : FlushCtx
new_flush_ctx = record { list = []; asleep = false }

-- The walk to the last node.
link_last : List (List ℕ) → List ℕ → List (List ℕ)
link_last [] chunk = chunk ∷ []
link_last (p ∷ rest) chunk = p ∷ link_last rest chunk

-- The thread is woken.
unfoldable pub put_to_flush_ctx : FlushCtx → List ℕ → FlushCtx
unfolding link_last
put_to_flush_ctx ctx buf = record { list = link_last ctx.list buf; asleep = false }

abbrev take_first : List (List ℕ) → Bool → Option (List ℕ) × FlushCtx
take_first [] asleep = (none, record { list = []; asleep = asleep })
take_first (p ∷ rest) asleep = (some p, record { list = rest; asleep = asleep })

unfoldable pub get_from_flush_ctx : FlushCtx → Option (List ℕ) × FlushCtx
get_from_flush_ctx ctx = take_first ctx.list ctx.asleep

abbrev is_nil : List (List ℕ) → Bool
is_nil [] = true
is_nil (p ∷ rest) = false

unfoldable pub empty_flush_ctx : FlushCtx → Bool
empty_flush_ctx ctx = is_nil ctx.list

unfoldable pub get_data : List ℕ → List ℕ
get_data packet = packet

unfoldable pub get_size : List ℕ → ℕ
get_size packet = length packet

link_last_lem : (l : List (List ℕ)) (chunk : List ℕ) → link_last l chunk ≡ l ++ (chunk ∷ [])
unfolding link_last
link_last_lem [] chunk = refl
link_last_lem (p ∷ rest) chunk = ap (◌∷◌ p) (link_last_lem rest chunk)

-- A packet goes to the end of the queue.
pub put_to_flush_ctx_lem :
    (ctx : FlushCtx) (buf : List ℕ) → (put_to_flush_ctx ctx buf).list ≡ ctx.list ++ (buf ∷ [])
unfolding put_to_flush_ctx
put_to_flush_ctx_lem ctx buf = link_last_lem ctx.list buf
