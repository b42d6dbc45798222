-- ===== src/Ws/Handshake/Laws.antt =====
-- What the handshake writes and answers.
use zktls_bench.Prelude.{
  ℕ, ◌+◌, ◌≤◌, ◌≡◌, ◌≢◌, refl, subst, ap, sym, ◌∙◌, some, List, [], ◌∷◌, ◌++◌, length, drop,
  overlay_lem, blit, blit_lem, append_assoc, arith, All, All-append, take_all, drop_append,
  drop-drop,
}
use zktls_bench.Prelude.Text.{codes, find_text, starts_with}
use zktls_bench.Prelude.Text.Laws.{find_text-append, c_string-append}
use zktls_bench.Prelude.Bytes.{IsByte}
use zktls_bench.Errors.{ok}
use zktls_bench.Ws.Base64.{base64_encode, decode-base64_encode}
use zktls_bench.Ws.Handshake.{
  RawStream, received, value_at, get_http_header, until_end_of_line, hashed_key, key_header,
  web_socket_global_guid, client_key, crlf, lines, lines_before, lines_behind, request_text, answer,
  accept_header, handshake_msg, send_or_fail, request_web_socket_handshake,
  response_web_socket_handshake, send_handshake,
}

-- The answer with an accept text.
abbrev pub answer_with : List ℕ → List ℕ
answer_with accept = lines (
    codes "HTTP/1.1 101 Switching Protocols"
    ∷ codes "Upgrade: websocket"
    ∷ codes "Connection: Upgrade"
    ∷ (accept_header ++ accept)
    ∷ []
    ∷ [])

lines-append : (xs ys : List (List ℕ)) → lines (xs ++ ys) ≡ lines xs ++ lines ys
lines-append [] ys = refl
lines-append (x ∷ xs) ys =
    ap (λ l. x ++ (crlf ++ l)) (lines-append xs ys)
    ∙ sym (append_assoc x (crlf ++ lines xs) (lines ys))

-- The value of the key, behind what the client writes before it.
value_of_key :
    (front rest : List ℕ)
    → find_text key_header (front ++ key_header) ≡ some (length front)
    → value_at
        (find_text key_header (front ++ (key_header ++ (client_key ++ (13 ∷ rest)))))
        (front ++ (key_header ++ (client_key ++ (13 ∷ rest))))
        key_header
        82
      ≡ ok (client_key, 24)
unfolding until_end_of_line
value_of_key front rest first =
    let text : List ℕ = key_header ++ (client_key ++ (13 ∷ rest)) in
    let there : drop (length front + 19) (front ++ text) ≡ client_key ++ (13 ∷ rest) =
      sym (drop-drop 19 (length front) (front ++ text))
      ∙ ap (drop 19) (drop_append (length front) front text refl) in
    rw (find_text-append key_header front (client_key ++ (13 ∷ rest)) first, there) refl

-- A request with the client's key behind `front`.
abbrev keyed : List ℕ → List ℕ → List ℕ
keyed front rest = front ++ (key_header ++ (client_key ++ (13 ∷ rest)))

hashed_key-keyed :
    (front rest behind : List ℕ)
    → find_text key_header (front ++ key_header) ≡ some (length front)
    → All (λ c. c ≢ 0) (keyed front rest)
    → hashed_key (keyed front rest ++ (0 ∷ behind)) ≡ ok (client_key ++ web_socket_global_guid)
unfolding hashed_key get_http_header
hashed_key-keyed front rest behind first no_nul =
    rw (c_string-append (keyed front rest) behind no_nul, value_of_key front rest first) refl

-- The request in a block, with bytes behind it up to a NUL.
hashed_key-block :
    (request front rest junk behind : List ℕ)
    → request ≡ keyed front rest
    → find_text key_header (front ++ key_header) ≡ some (length front)
    → All (λ c. c ≢ 0) request
    → All (λ c. c ≢ 0) junk
    → hashed_key (request ++ (junk ++ (0 ∷ behind))) ≡ ok (client_key ++ web_socket_global_guid)
hashed_key-block request front rest junk behind e first no_nul clean =
    let longer : request ++ junk ≡ keyed front (rest ++ junk) =
      ap (λ r. r ++ junk) e ∙ append_assoc front (key_header ++ (client_key ++ (13 ∷ rest))) junk in
    ap hashed_key
      (sym (append_assoc request junk (0 ∷ behind)) ∙ ap (λ l. l ++ (0 ∷ behind)) longer)
    ∙ hashed_key-keyed front (rest ++ junk) behind first
        (subst (All (λ c. c ≢ 0)) longer (All-append _ request junk no_nul clean))

request-keyed :
    (uri host : List ℕ)
    → request_text uri host ≡ keyed (lines (lines_before uri host)) (10 ∷ lines lines_behind)
request-keyed uri host =
    lines-append (lines_before uri host) ((key_header ++ client_key) ∷ lines_behind)

-- The place of the accept text in the answer.
accept_place : find_text accept_header handshake_msg ≡ some 75
unfolding find_text starts_with
accept_place = refl

-- The answer around the accept text.
abbrev before_accept : List ℕ
before_accept =
    lines (
      codes "HTTP/1.1 101 Switching Protocols"
      ∷ codes "Upgrade: websocket"
      ∷ codes "Connection: Upgrade"
      ∷ [])
    ++ accept_header

-- The zeros are overwritten, all of them and nothing else.
answer_lem :
    (hash : List ℕ)
    → length hash ≡ 20
    → All IsByte hash
    → answer hash ≡ ok (answer_with (base64_encode hash))
unfolding answer
answer_lem hash h bytes =
    let text : List ℕ = base64_encode hash in
    let placed : blit 97 text handshake_msg ≡ answer_with text =
      blit_lem 97 before_accept text (codes "0000000000000000000000000000") (crlf ++ crlf) refl
        (omega (arith, (decode-base64_encode hash bytes).1)) in
    rw (accept_place, answer, take_all 20 hash (omega arith), placed) refl

-- The accept text that the WebSocket protocol asks for.
abbrev pub accept_text : (List ℕ → List ℕ) → List ℕ
accept_text sha1 = base64_encode (sha1 (client_key ++ web_socket_global_guid))

module _ (sha1 : List ℕ → List ℕ) (sha1_length : (text : List ℕ) → length (sha1 text) ≡ 20)
    (sha1_bytes : (text : List ℕ) → All IsByte (sha1 text)) (client server : RawStream) where
  response-keyed :
      (request front rest used junk behind : List ℕ) (t t' : server.State)
      → request ≡ keyed front rest
      → find_text key_header (front ++ key_header) ≡ some (length front)
      → All (λ c. c ≢ 0) request
      → All (λ c. c ≢ 0) junk
      → length request ≡ length used
      → server.recv 1024 t ≡ (received request, t')
      → response_web_socket_handshake server sha1 (used ++ (junk ++ (0 ∷ behind))) t
        ≡ send_or_fail server (answer_with (accept_text sha1)) "send websocket handshake error" t'
  unfolding response_web_socket_handshake send_handshake
  response-keyed request front rest used junk behind t t' e first no_nul clean size got =
      let key : List ℕ = client_key ++ web_socket_global_guid in
      rw
        (
          got,
          overlay_lem request used (junk ++ (0 ∷ behind)) size,
          hashed_key-block request front rest junk behind e first no_nul clean,
          answer_lem (sha1 key) (sha1_length key) (sha1_bytes key),
        )
        refl

  -- A client's request for a uri and a host without NUL, in which the key's header is first found
  -- where it is written and which fits a block of 1024 bytes with its NUL, goes out whole. A server
  -- that receives it in one piece, into a block that holds a NUL somewhere behind it, answers with
  -- the switch of protocols and, as the accept text, the base64 text of the hash of the client's key
  -- and the GUID.
  pub response-request :
      (uri host used junk behind : List ℕ) (s : client.State) (t t' : server.State)
      → find_text key_header (lines (lines_before uri host) ++ key_header)
        ≡ some (length (lines (lines_before uri host)))
      → All (λ c. c ≢ 0) (request_text uri host)
      → All (λ c. c ≢ 0) junk
      → length (request_text uri host) ≤ 1023
      → length (request_text uri host) ≡ length used
      → server.recv 1024 t ≡ (received (request_text uri host), t')
      → (request_web_socket_handshake client uri host s
          ≡ send_or_fail client (request_text uri host) "request websocket send error" s)
        × (response_web_socket_handshake server sha1 (used ++ (junk ++ (0 ∷ behind))) t
            ≡ send_or_fail server
                (answer_with (accept_text sha1))
                "send websocket handshake error"
                t')
  unfolding request_web_socket_handshake
  response-request uri host used junk behind s t t' first no_nul clean fits size got = (
    ap (λ msg. send_or_fail client msg "request websocket send error" s)
        (take_all 1023 (request_text uri host) fits),
    response-keyed (request_text uri host) (lines (lines_before uri host)) (10 ∷ lines lines_behind)
        used junk behind t t' (request-keyed uri host) first no_nul clean size got,
  )
