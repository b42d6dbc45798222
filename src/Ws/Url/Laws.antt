-- ===== src/Ws/Url/Laws.antt =====
-- Reading back a printed url.
use zktls_bench.Prelude.{
  ℕ, suc, ◌+◌, ◌≤◌, ◌≡◌, refl, ap, sym, ◌∙◌, ◌≢◌, Option, none, some, List, [], ◌∷◌, ◌++◌, length,
  drop, take_append, drop_append, All, All-append, arith, drop-drop, false,
}
use zktls_bench.Prelude.Text.{ℤ, pos, codes, to_string}
use zktls_bench.Prelude.Text.Laws.{
  find_text-absent, find_text-none, atoi-to_string, All-IsDigit-to_string,
}
use zktls_bench.Registry.{same_text}
use zktls_bench.Ws.Url.{
  ProtocolType, ws, wss, AddrInfo, invalid_argument_exception, parsed, new_ip_port, split_port,
  split_uri, resolve, parse_url,
}

abbrev pub scheme_text : ProtocolType → List ℕ
scheme_text ws = codes "ws"
scheme_text wss = codes "wss"

-- host[:port]
abbrev pub address_text : List ℕ → Option ℕ → List ℕ
address_text host none = host
address_text host (some port) = host ++ (codes ":" ++ to_string port)

-- scheme://host[:port][/path]
abbrev pub print_url : List ℕ → List ℕ → Option ℕ → Option (List ℕ) → List ℕ
print_url scheme host port none = scheme ++ (codes "://" ++ address_text host port)
print_url scheme host port (some path) =
    scheme ++ (codes "://" ++ (address_text host port ++ (codes "/" ++ path)))

abbrev pub port_or_default : Option ℕ → ℤ
port_or_default none = pos 443
port_or_default (some port) = pos port

abbrev pub uri_or_default : Option (List ℕ) → List ℕ
uri_or_default none = codes "/"
uri_or_default (some path) = codes "/" ++ path

abbrev pub IsInt : Option ℕ → Type 0
IsInt none = Unit
IsInt (some port) = port ≤ 2147483647

-- A part of an address: neither ':' nor '/'.
abbrev pub IsHost : List ℕ → Type 0
IsHost host = All (λ c. (c ≢ 58) × (c ≢ 47)) host

module _ {ℓ κ} {A : Type 0} {P : A → Type ℓ} {Q : A → Type κ} where
  All-map : ((a : A) → P a → Q a) → (xs : List A) → All P xs → All Q xs
  All-map f [] h = tt
  All-map f (x ∷ xs) h = (f x h.0, All-map f xs h.1)

skip_one : (xs ys : List ℕ) → drop (suc (length xs)) (xs ++ (58 ∷ ys)) ≡ ys
skip_one [] ys = refl
skip_one (x ∷ xs) ys = skip_one xs ys

split_port_lem :
    (host : List ℕ) (port : Option ℕ)
    → IsHost host
    → IsInt port
    → split_port (address_text host port) ≡ parsed (host, port_or_default port)
unfolding split_port
split_port_lem host none h i =
    rw (find_text-none 58 host (All-map (λ c p. p.0) host h), split_port) refl
split_port_lem host (some port) h i =
    rw
      (
        find_text-absent 58 [] host (to_string port) (All-map (λ c p. p.0) host h),
        split_port,
        skip_one host (to_string port),
        atoi-to_string port i,
        take_append (length host) host (58 ∷ to_string port) refl,
      )
      refl

no_slash :
    (host : List ℕ) (port : Option ℕ) → IsHost host → All (λ c. c ≢ 47) (address_text host port)
no_slash host none h = All-map (λ c p. p.1) host h
no_slash host (some port) h =
    All-append _ host (58 ∷ to_string port) (All-map (λ c p. p.1) host h) (
      (λ e. absurd (omega arith)),
      All-map (λ c d e. absurd (omega arith)) (to_string port) (All-IsDigit-to_string port),
    )

split_uri_lem :
    (address : List ℕ) (path : List ℕ)
    → All (λ c. c ≢ 47) address
    → split_uri (address ++ (codes "/" ++ path)) ≡ (address, codes "/" ++ path)
unfolding split_uri
split_uri_lem address path h =
    rw
      (
        find_text-absent 47 [] address path h,
        split_uri,
        take_append (length address) address (47 ∷ path) refl,
        drop_append (length address) address (47 ∷ path) refl,
      )
      refl

split_uri_none :
    (address : List ℕ) → All (λ c. c ≢ 47) address → split_uri address ≡ (address, codes "/")
unfolding split_uri
split_uri_none address h = rw (find_text-none 47 address h, split_uri) refl

behind_splitter :
    (scheme rest : List ℕ) → drop (length scheme + 3) (scheme ++ (58 ∷ 47 ∷ 47 ∷ rest)) ≡ rest
behind_splitter scheme rest =
    sym (drop-drop 3 (length scheme) (scheme ++ (58 ∷ 47 ∷ 47 ∷ rest)))
    ∙ ap (drop 3) (drop_append (length scheme) scheme (58 ∷ 47 ∷ 47 ∷ rest) refl)

module _ (getaddrinfo : List ℕ → Option (List AddrInfo)) where
  parse_url_body :
      (scheme host body ip uri : List ℕ) (port : Option ℕ)
      → All (λ c. c ≢ 58) scheme
      → IsHost host
      → IsInt port
      → split_uri body ≡ (address_text host port, uri)
      → resolve getaddrinfo (scheme ++ (codes "://" ++ body)) host ≡ parsed ip
      → parse_url getaddrinfo (scheme ++ (codes "://" ++ body))
        ≡ new_ip_port ip (port_or_default port) scheme host uri
  unfolding parse_url
  parse_url_body scheme host body ip uri port h k i e r =
      rw
        (
          find_text-absent 58 (47 ∷ 47 ∷ []) scheme body h,
          parse_url,
          behind_splitter scheme body,
          e,
          split_port_lem host port k i,
          r,
          take_append (length scheme) scheme (58 ∷ 47 ∷ 47 ∷ body) refl,
        )
        refl

  -- for any scheme
  parse_url_parts :
      (scheme host ip : List ℕ) (port : Option ℕ) (path : Option (List ℕ))
      → All (λ c. c ≢ 58) scheme
      → IsHost host
      → IsInt port
      → resolve getaddrinfo (print_url scheme host port path) host ≡ parsed ip
      → parse_url getaddrinfo (print_url scheme host port path)
        ≡ new_ip_port ip (port_or_default port) scheme host (uri_or_default path)
  parse_url_parts scheme host ip port none h k i r =
      parse_url_body scheme host (address_text host port) ip (codes "/") port h k i
        (split_uri_none (address_text host port) (no_slash host port k)) r
  parse_url_parts scheme host ip port (some path) h k i r =
      parse_url_body scheme host (address_text host port ++ (codes "/" ++ path)) ip
        (codes "/" ++ path) port h k i
        (split_uri_lem (address_text host port) path (no_slash host port k)) r

  -- `parse_url` of ws://host[:port][/path] or wss://..., where the host has neither ':' nor '/' and the
  -- port is an int, succeeds if the host resolves: it gives the protocol, the address that the host
  -- resolves to, the port or else 443, and the path with its '/' or else "/"; but the field uri is
  -- the host, and the field host is the path.
  pub parse_url-print_url :
      (protocol : ProtocolType) (host ip : List ℕ) (port : Option ℕ) (path : Option (List ℕ))
      → IsHost host
      → IsInt port
      → resolve getaddrinfo (print_url (scheme_text protocol) host port path) host ≡ parsed ip
      → parse_url getaddrinfo (print_url (scheme_text protocol) host port path)
        ≡ parsed (record {
          protocol_type = protocol;
          ip = ip;
          port = port_or_default port;
          uri = host;
          host = uri_or_default path;
        })
  unfolding new_ip_port same_text
  parse_url-print_url ws host ip port path k i r =
      parse_url_parts (codes "ws") host ip port path
        ((λ e. absurd (omega arith)), ((λ e. absurd (omega arith)), tt)) k i r
  parse_url-print_url wss host ip port path k i r =
      parse_url_parts (codes "wss") host ip port path
        (
          (λ e. absurd (omega arith)),
          ((λ e. absurd (omega arith)), ((λ e. absurd (omega arith)), tt)),
        )
        k i r

  -- A url with another scheme, of the same form, is refused with a message that has the scheme.
  pub parse_url_other_scheme :
      (scheme host ip : List ℕ) (port : Option ℕ) (path : Option (List ℕ))
      → All (λ c. c ≢ 58) scheme
      → same_text scheme (codes "ws") ≡ false
      → same_text scheme (codes "wss") ≡ false
      → IsHost host
      → IsInt port
      → resolve getaddrinfo (print_url scheme host port path) host ≡ parsed ip
      → parse_url getaddrinfo (print_url scheme host port path)
        ≡ invalid_argument_exception (codes "invalid protocol name: " ++ scheme)
  unfolding new_ip_port
  parse_url_other_scheme scheme host ip port path h no_ws no_wss k i r =
      parse_url_parts scheme host ip port path h k i r ∙ rw (no_ws, no_wss) refl
