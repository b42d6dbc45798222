-- ===== src/Proxy/Functions/Addresses/Laws.antt =====
-- The addresses that the proxy sends are those that `getaddrinfo3` passes back.
use mathlib.Core.List.{map}
use zktls_bench.Prelude.{
  ℕ, ◌^◌, ◌<◌, none, some, List, [], ◌∷◌, ◌++◌, length, replicate, concat, ◌-◌,
}
use zktls_bench.Prelude.Bytes.{le}
use zktls_bench.Proxy.Functions.Addresses.{Addrinfo}

-- A result as the proxy writes it.
abbrev pub addrinfo_bytes : Addrinfo → List ℕ
addrinfo_bytes a =
    le 4 a.ai_flags
    ++ (le 4 a.ai_family
        ++ (le 4 a.ai_socktype ++ (le 4 a.ai_protocol ++ (le 4 (length a.ai_addr) ++ a.ai_addr))))

abbrev pub IsInfo : Addrinfo → Type 0
IsInfo a =
    (a.ai_flags < 2 ^ 32)
    × (a.ai_family < 2 ^ 32)
    × (a.ai_socktype < 2 ^ 32)
    × (a.ai_protocol < 2 ^ 32)
    × (length a.ai_addr < 2 ^ 32)

-- Only the first has a name.
abbrev pub unnamed : Addrinfo → Addrinfo
unnamed a = record a { ai_canonname = none }

abbrev pub first_named : List ℕ → List Addrinfo → List Addrinfo
first_named name [] = []
first_named name (a ∷ infos) = record a { ai_canonname = some name } ∷ map unnamed infos

-- An answer of the proxy to the request for addresses.
abbrev pub addresses_answer : ℕ → List ℕ → List Addrinfo → List ℕ
addresses_answer id name infos =
    (le 4 id ++ (le 4 0 ++ le 4 0))
    ++ ((name ++ replicate (2048 - length name) 0)
        ++ (le 4 (length infos) ++ concat (map addrinfo_bytes infos)))
