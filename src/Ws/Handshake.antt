-- ===== src/Ws/Handshake.antt =====
-- The handshake of network/ws.cpp: `GetHttpHeader`, `SendHandshake`, `RequestWebSocketHandshake`,
-- `ResponseWebSocketHandshake` and `CheckWebSocketHandshake`, in the native build. SHA-1 is a
-- parameter. Texts are lists of bytes.
pub mod Laws
use Prim.Native.String.{String}
use zktls_bench.Prelude.{
  ℕ, ◌+◌, ◌-◌, ◌≤◌, ◌≡◌, Bool, true, false, ◌||◌, Option, none, some, List, [], ◌∷◌, ◌++◌, ◌==◌,
  min, if◌then◌else◌, length, take, drop, replicate, overlay, blit,
}
use zktls_bench.Prelude.Text.{codes, find_text, c_string}
use zktls_bench.Errors.{
  Outcome, ok, err, fault, stuck, ◌>>=◌, or_fault, network_error, ConnectionType, connection_error,
}
use zktls_bench.Ws.Base64.{base64_encode}

-- What a single `Recv` gives: some bytes, 0 or -1.
pub data RecvResult : Type 0 where
  received : List ℕ → RecvResult
  peer_closed failed : RecvResult

-- What the handshake uses of a `ChannelStream`. `send` says whether the result was not negative.
pub record RawStream : Type 1 where
  pub State : Type 0
  pub connection_type : ConnectionType
  pub send : List ℕ → State → Bool × State
  pub recv : ℕ → State → RecvResult × State
  pub close : State → State

-- BUFFER_SIZE
abbrev pub block_size : ℕ
block_size = 1024

abbrev pub crlf : List ℕ
crlf = 13 ∷ 10 ∷ []

unfoldable pub until_end_of_line : List ℕ → List ℕ
until_end_of_line [] = []
until_end_of_line (c ∷ cs) =
    let rest = until_end_of_line cs in if (c == 13) || (c == 10) then [] else c ∷ rest

-- The bytes written to `out` before its NUL, and the length returned.
abbrev pub value_at : Option ℕ → List ℕ → List ℕ → ℕ → Outcome (List ℕ × ℕ)
value_at none text header max_bytes_out = err (network_error "Sec-WebSocket-Key not find")
value_at (some p) text header max_bytes_out =
    let value = until_end_of_line (drop (p + length header) text) in
    ok (take (min (length value) (max_bytes_out - 1)) value, length value)

-- A block without a NUL is read behind its end.
unfoldable pub get_http_header : List ℕ → List ℕ → ℕ → Outcome (List ℕ × ℕ)
get_http_header headers header max_bytes_out = do
  text ← or_fault (c_string headers)
  value_at (find_text header text) text header max_bytes_out

abbrev pub web_socket_global_guid : List ℕ
web_socket_global_guid = codes "258EAFA5-E914-47DA-95CA-C5AB0DC85B11"

-- sizeof(key)
abbrev pub key_size : ℕ
key_size = 128 + 37

abbrev pub key_header : List ℕ
key_header = codes "Sec-WebSocket-Key: "

abbrev pub accept_header : List ℕ
accept_header = codes "Sec-WebSocket-Accept: "

-- Lines, each with its end.
abbrev pub lines : List (List ℕ) → List ℕ
lines [] = []
lines (l ∷ ls) = l ++ (crlf ++ lines ls)

abbrev pub handshake_msg : List ℕ
handshake_msg = lines (
    codes "HTTP/1.1 101 Switching Protocols"
    ∷ codes "Upgrade: websocket"
    ∷ codes "Connection: Upgrade"
    ∷ (accept_header ++ codes "0000000000000000000000000000")
    ∷ []
    ∷ [])

-- The text that is hashed.
unfoldable pub hashed_key : List ℕ → Outcome (List ℕ)
hashed_key request = do
  (key, n) ← get_http_header request key_header 82
  ok (key ++ web_socket_global_guid)

-- The 20 bytes of the hash, in base64, behind the header in the answer.
unfoldable pub answer : List ℕ → Outcome (List ℕ)
answer sha1 = elim (find_text accept_header handshake_msg) [
  | none ↦ fault
  | some p ↦ ok (blit (p + length accept_header) (base64_encode (take 20 sha1)) handshake_msg)
]

-- The request's lines before the key, the key, and those behind it.
abbrev pub lines_before : List ℕ → List ℕ → List (List ℕ)
lines_before uri host =
    (codes "GET " ++ (uri ++ codes " HTTP/1.1"))
    ∷ (codes "Host: " ++ host)
    ∷ codes
        "User-Agent: Mozilla/5.0 (X11; Ubuntu; Linux x86_64; rv:109.0) Gecko/20100101 Firefox/110.0"
    ∷ codes "Accept: */*"
    ∷ codes "Accept-Language: en-US,en;q=0.5"
    ∷ codes "Accept-Encoding: gzip, deflate, br"
    ∷ codes "Sec-WebSocket-Version: 13"
    ∷ codes "Sec-WebSocket-Extensions: permessage-deflate"
    ∷ []

abbrev pub client_key : List ℕ
client_key = codes "I28w97h3i3dkMdxGpUF+sA=="

abbrev pub lines_behind : List (List ℕ)
lines_behind =
    codes "Connection: keep-alive, Upgrade"
    ∷ codes "Sec-Fetch-Dest: websocket"
    ∷ codes "Sec-Fetch-Mode: websocket"
    ∷ codes "Sec-Fetch-Site: same-site"
    ∷ codes "Pragma: no-cache"
    ∷ codes "Cache-Control: no-cache"
    ∷ codes "Upgrade: websocket"
    ∷ []
    ∷ []

abbrev pub request_text : List ℕ → List ℕ → List ℕ
request_text uri host = lines (lines_before uri host ++ ((key_header ++ client_key) ∷ lines_behind))

module _ (stream : RawStream) where
  open stream use {State, connection_type, send, recv, close}

  -- `Close`, and the error of the connection.
  abbrev pub fail : String → State → Outcome (Unit {0}) × State
  fail desc s = (err (connection_error connection_type desc), close s)

  abbrev pub send_or_fail : List ℕ → String → State → Outcome (Unit {0}) × State
  send_or_fail msg desc s =
      let (done, s') = send msg s in if done then (ok tt, s') else fail desc s'

  -- The message is a block of 1024 bytes, with a NUL.
  unfoldable pub request_web_socket_handshake : List ℕ → List ℕ → State → Outcome (Unit {0}) × State
  request_web_socket_handshake uri host s =
      send_or_fail (take 1023 (request_text uri host)) "request websocket send error" s

  abbrev pub answer_or_throw : Outcome (List ℕ) → State → Outcome (Unit {0}) × State
  answer_or_throw (ok msg) s = send_or_fail msg "send websocket handshake error" s
  answer_or_throw (err e) s = (err e, s)
  answer_or_throw fault s = (fault, s)
  answer_or_throw stuck s = (stuck, s)

  module _ (sha1 : List ℕ → List ℕ) where
    unfoldable pub send_handshake : List ℕ → State → Outcome (Unit {0}) × State
    send_handshake request s = answer_or_throw (do key ← hashed_key request; answer (sha1 key)) s

    abbrev answer_to : List ℕ → RecvResult → State → Outcome (Unit {0}) × State
    answer_to buf (received bytes) s = send_handshake (overlay bytes buf) s
    answer_to buf peer_closed s = fail "response websocket peer close" s
    answer_to buf failed s = fail "response websocket recv error" s

    -- `buf` is what the block of 1024 bytes on the stack held before.
    unfoldable pub response_web_socket_handshake : List ℕ → State → Outcome (Unit {0}) × State
    response_web_socket_handshake buf s = let (got, s') = recv block_size s in answer_to buf got s'

  abbrev checked : RecvResult → State → Outcome (Unit {0}) × State
  checked (received bytes) s = (ok tt, s)
  checked peer_closed s = fail "check websocket recv error" s
  checked failed s = fail "check websocket recv error" s

  -- The answer is not looked at.
  unfoldable pub check_web_socket_handshake : State → Outcome (Unit {0}) × State
  check_web_socket_handshake s = let (got, s') = recv block_size s in checked got s'
