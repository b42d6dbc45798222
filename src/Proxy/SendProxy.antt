-- ===== src/Proxy/SendProxy.antt =====
-- `SendProxyCtx` of network/proxy_client.cpp: the results of sent calls that are still to be waited
-- for, and the queue of call ids that the network thread serves. Both are linked lists.
use zktls_bench.Prelude.{
  ℕ, ◌≡◌, refl, Bool, true, false, List, [], ◌∷◌, ◌++◌, append_assoc, append-nil,
}

-- A pointer to the end, and a node behind it.
unfoldable pub append_node {ℓ} : {A : Type ℓ} → List A → A → List A
append_node [] p = p ∷ []
append_node (c ∷ list) p = c ∷ append_node list p

pub record SendProxyCtx : Type 0 where
  pub valid : Bool
  pub list : List ℕ

abbrev pub new_send_proxy_ctx : SendProxyCtx
new_send_proxy_ctx = record { valid = true; list = [] }

unfoldable pub put_to_send_proxy_ctx : SendProxyCtx → ℕ → SendProxyCtx
put_to_send_proxy_ctx ctx p = record ctx { list = append_node ctx.list p }

-- What a call of `GetFromSendProxyCtx` comes to: a result, a null pointer, or it waits.
pub data Fetched : Type 0 where
  result : ℕ → Fetched
  null waits : Fetched

unfoldable pub get_from_send_proxy_ctx : SendProxyCtx → Fetched × SendProxyCtx
get_from_send_proxy_ctx ctx = elim ctx.list [
  | [] ↦ (elim ctx.valid [ true ↦ waits | false ↦ null ], ctx)
  | current ∷ next ↦ (result current, record ctx { list = next })
]

unfoldable pub set_send_proxy_ctx : SendProxyCtx → Bool → SendProxyCtx
set_send_proxy_ctx ctx valid = record ctx { valid = valid }

append_node_lem : (list : List ℕ) (p : ℕ) → append_node list p ≡ list ++ (p ∷ [])
unfolding append_node
append_node_lem [] p = refl
append_node_lem (c ∷ list) p = rw (append_node_lem list p)

abbrev pub put_all : SendProxyCtx → List ℕ → SendProxyCtx
put_all ctx [] = ctx
put_all ctx (p ∷ ps) = put_all (put_to_send_proxy_ctx ctx p) ps

-- What `process_send` gets in its rounds, up to a null pointer or a wait.
abbrev pub get_all : List ℕ → SendProxyCtx → List Fetched
get_all [] ctx = (get_from_send_proxy_ctx ctx).0 ∷ []
get_all (p ∷ ps) ctx = (get_from_send_proxy_ctx ctx).0 ∷ get_all ps (get_from_send_proxy_ctx ctx).1

put_all_lem :
    (ps : List ℕ) (valid : Bool) (list : List ℕ)
    → put_all (record { valid = valid; list = list }) ps
      ≡ record { valid = valid; list = list ++ ps }
unfolding put_to_send_proxy_ctx
put_all_lem [] valid list = rw (append-nil list) refl
put_all_lem (p ∷ ps) valid list =
    rw
      (
        append_node_lem list p,
        put_all_lem ps valid (list ++ (p ∷ [])),
        append_assoc list (p ∷ []) ps,
      )
      refl

abbrev pub results : List ℕ → Fetched → List Fetched
results [] last = last ∷ []
results (p ∷ ps) last = result p ∷ results ps last

get_all_lem :
    (ps : List ℕ) (valid : Bool)
    → get_all ps (record { valid = valid; list = ps })
      ≡ results ps (elim valid [ true ↦ waits | false ↦ null ])
unfolding get_from_send_proxy_ctx
get_all_lem [] valid = refl
get_all_lem (p ∷ ps) valid = rw (get_all_lem ps valid)

-- What was put into a new context comes out in the order in which it went in, also when the context
-- was shut in between; behind it a call waits, or once the context is shut gets a null pointer.
pub get_all-put_all :
    (ps : List ℕ) (valid : Bool)
    → get_all ps (set_send_proxy_ctx (put_all new_send_proxy_ctx ps) valid)
      ≡ results ps (elim valid [ true ↦ waits | false ↦ null ])
unfolding set_send_proxy_ctx
get_all-put_all ps valid = rw (put_all_lem ps true []) (get_all_lem ps valid)
