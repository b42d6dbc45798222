-- ===== src/Tests/Addresses.antt =====
-- Runs of the theorems on urls and the handshake.
use zktls_bench.Prelude.{
  ℕ, ◌≡◌, ◌≢◌, refl, Bool, true, not, ◌&&◌, ◌==◌, Option, some, List, [], ◌∷◌, ◌++◌, length,
  replicate, All, arith,
}
use zktls_bench.Prelude.Text.{pos, codes, find_text, starts_with}
use zktls_bench.Errors.{client_to_pado}
use zktls_bench.Ws.Url.{
  AddrInfo, inet, inet6, parsed, wss, resolve, parse_url, not_ip, lookup_host, ipv4_of,
}
use zktls_bench.Ws.Url.Laws.{IsHost, print_url, parse_url-print_url}
use zktls_bench.Ws.Handshake.{
  RawStream, received, request_text, key_header, lines, lines_before, request_web_socket_handshake,
  response_web_socket_handshake, send_or_fail,
}
use zktls_bench.Ws.Handshake.Laws.{response-request, answer_with, accept_text}

-- One host, with an IPv6 and an IPv4 address.
abbrev resolver : List ℕ → Option (List AddrInfo)
resolver host = some (inet6 (codes "::1") ∷ inet (codes "10.0.0.7") ∷ [])

abbrev url : List ℕ
url = print_url (codes "wss") (codes "pado") (some 81) (some (codes "v1"))

pado_resolves : resolve resolver url (codes "pado") ≡ parsed (codes "10.0.0.7")
unfolding resolve not_ip lookup_host ipv4_of
pado_resolves = refl

apart : List ℕ → Bool
apart [] = true
apart (c ∷ cs) = (not (c == 58) && not (c == 47)) && apart cs

away : (h : List ℕ) → apart h ≡ true → IsHost h
unfolding apart
away [] e = tt
away (c ∷ cs) e = ((ground (arith, e), ground (arith, e)), away cs (ground (arith, e)))

pado_apart : apart (codes "pado") ≡ true
unfolding apart
pado_apart = refl

parse_url-print_url_example :
    parse_url resolver url
    ≡ parsed (record {
      protocol_type = wss;
      ip = codes "10.0.0.7";
      port = pos 81;
      uri = codes "pado";
      host = codes "/v1";
    })
parse_url-print_url_example =
    parse_url-print_url resolver wss (codes "pado") (codes "10.0.0.7") (some 81) (some (codes "v1"))
      (away (codes "pado") pado_apart) (omega arith) pado_resolves

-- The text of a request on the stack of a server.
abbrev request : List ℕ
request = request_text (codes "/v1") (codes "pado")

nonzero : List ℕ → Bool
nonzero [] = true
nonzero (c ∷ cs) = not (c == 0) && nonzero cs

nonzero_lem : (l : List ℕ) → nonzero l ≡ true → All (λ c. c ≢ 0) l
unfolding nonzero
nonzero_lem [] h = tt
nonzero_lem (c ∷ cs) h = (ground (arith, h), nonzero_lem cs (ground (arith, h)))

request_clean : nonzero request ≡ true
unfolding nonzero
request_clean = refl

-- A stream that delivers the request and keeps what is sent.
abbrev loopback : RawStream
loopback = record {
  State = List (List ℕ);
  connection_type = client_to_pado;
  send = λ p s. (true, p ∷ s);
  recv = λ n s. (received request, s);
  close = λ s. s;
}

abbrev hash : List ℕ → List ℕ
hash text = replicate 20 7

header_first :
    find_text key_header (lines (lines_before (codes "/v1") (codes "pado")) ++ key_header)
    ≡ some (length (lines (lines_before (codes "/v1") (codes "pado"))))
unfolding find_text starts_with
header_first = refl

response-request_example :
    (request_web_socket_handshake loopback (codes "/v1") (codes "pado") []
      ≡ send_or_fail loopback request "request websocket send error" [])
    × (response_web_socket_handshake loopback hash (request ++ (0 ∷ [])) []
        ≡ send_or_fail loopback
            (answer_with (accept_text hash))
            "send websocket handshake error"
            [])
response-request_example =
    response-request hash (λ t. refl) (λ t. omega arith) loopback loopback (codes "/v1")
      (codes "pado") request [] [] [] [] [] header_first (nonzero_lem request request_clean) tt
      (omega arith) refl refl
