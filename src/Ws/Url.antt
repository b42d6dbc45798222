-- ===== src/Ws/Url.antt =====
-- `IpPort`, `parse_url` and `lookup_host` of network/ws.h and network/ws.cpp. Texts are lists of bytes;
-- what getaddrinfo gives for a host is a parameter.
pub mod Laws
use zktls_bench.Prelude.{
  ℕ, suc, ◌+◌, Bool, true, false, not, ◌&&◌, ◌||◌, Option, none, some, List, [], ◌∷◌, ◌++◌, ◌==◌,
  if◌then◌else◌, length, take, drop,
}
use zktls_bench.Prelude.Text.{ℤ, pos, codes, find_text, is_digit, atoi, to_string}
use zktls_bench.Registry.{same_text}

pub data ProtocolType : Type 0 where
  ws wss : ProtocolType

pub record IpPort : Type 0 where
  pub protocol_type : ProtocolType
  pub ip : List ℕ
  pub port : ℤ
  pub uri : List ℕ
  pub host : List ℕ

-- The exceptions with their messages; `fault` is the undefined result of atoi on a value that is no
-- int.
pub data Parsed {ℓ} (A : Type ℓ) : Type ℓ where
  parsed : A → Parsed A
  invalid_argument_exception socket_error : List ℕ → Parsed A
  fault : Parsed A

infixl 5 ◌>>=◌
abbrev pub ◌>>=◌ {ℓ κ} : {A : Type ℓ} {B : Type κ} → Parsed A → (A → Parsed B) → Parsed B
parsed a >>= f = f a
invalid_argument_exception e >>= f = invalid_argument_exception e
socket_error e >>= f = socket_error e
fault >>= f = fault

-- The constructor of `IpPort`.
unfoldable pub new_ip_port : List ℕ → ℤ → List ℕ → List ℕ → List ℕ → Parsed IpPort
new_ip_port ip port protocol_name uri host =
    if same_text protocol_name (codes "ws")
    then parsed (record { protocol_type = ws; ip = ip; port = port; uri = uri; host = host })
    else if same_text protocol_name (codes "wss")
    then parsed (record { protocol_type = wss; ip = ip; port = port; uri = uri; host = host })
    else invalid_argument_exception (codes "invalid protocol name: " ++ protocol_name)

-- One `addrinfo`: its family, and its address as inet_ntop writes it.
pub data AddrInfo : Type 0 where
  inet inet6 : List ℕ → AddrInfo
  other_family : ℕ → AddrInfo

-- The loop over the results of getaddrinfo.
unfoldable pub ipv4_of : List AddrInfo → List (List ℕ) → Parsed (List (List ℕ))
ipv4_of [] ips = parsed ips
ipv4_of (inet addr ∷ res) ips = ipv4_of res (ips ++ (addr ∷ []))
ipv4_of (inet6 addr ∷ res) ips = ipv4_of res ips
ipv4_of (other_family f ∷ res) ips =
    invalid_argument_exception (codes "[lookup_host]unsupported ai_family: " ++ to_string f)

-- `none` is an error code of getaddrinfo.
unfoldable pub lookup_host : Option (List AddrInfo) → Parsed (List (List ℕ))
lookup_host none = parsed []
lookup_host (some res) = ipv4_of res []

unfoldable pub not_ip : List ℕ → Bool
not_ip [] = false
not_ip (c ∷ address) = (not (c == 46) && not (is_digit c)) || not_ip address

-- What stands before and behind a separator of the given length, if it was found.
unfoldable pub split_port : List ℕ → Parsed (List ℕ × ℤ)
split_port address = elim (find_text (codes ":") address) [
  | none ↦ parsed (address, pos 443)
  | some p ↦ elim (atoi (drop (suc p) address)) [
    | none ↦ fault
    | some port ↦ parsed (take p address, port)
  ]
]

-- The address and the uri of what stands behind "://".
unfoldable pub split_uri : List ℕ → List ℕ × List ℕ
split_uri body = elim (find_text (codes "/") body) [
  | none ↦ (body, codes "/")
  | some end ↦ (take end body, drop end body)
]

first_address : List ℕ → List (List ℕ) → Parsed (List ℕ)
first_address url [] = socket_error (codes "lookup host error, url: " ++ url)
first_address url (a ∷ addresses) = parsed a

module _ (getaddrinfo : List ℕ → Option (List AddrInfo)) where
  unfoldable pub resolve : List ℕ → List ℕ → Parsed (List ℕ)
  unfolding first_address
  resolve url address =
      if not_ip address
      then (do addresses ← lookup_host (getaddrinfo address); first_address url addresses)
      else parsed address

  -- The constructor of `IpPort` takes the uri before the host.
  unfoldable pub parse_url : List ℕ → Parsed IpPort
  parse_url url = elim (find_text (codes "://") url) [
    | none ↦ invalid_argument_exception (codes "invalid url: " ++ url)
    | some begin ↦
        let (whole, uri) = split_uri (drop (begin + 3) url) in
        do
          (host, port) ← split_port whole
          address ← resolve url host
          new_ip_port address port (take begin url) host uri
  ]
