-- ===== src/Ws/Socket/Stream.antt =====
-- A socket as a channel to receive from, and its peer as a stream to send to.
use zktls_bench.Prelude.{
  ℕ, suc, ◌<◌, ◌≡◌, refl, ap, Bool, true, false, List, [], ◌∷◌, ◌++◌, if◌then◌else◌, length, arith,
  length-take, none, replicate, ◌^◌, take_append,
}
use zktls_bench.Errors.{ok, err, ConnectionType, connection_error}
use zktls_bench.Ws.Header.{gen_web_socket_header}
use zktls_bench.Ws.Header.Laws.{header_bytes, slack, gen_web_socket_header_lem}
use zktls_bench.Ws.Channel.{Channel}
use zktls_bench.Ws.Send.{SendStream}
use zktls_bench.Ws.Socket.{Socket, Peer, recv_ex, send, web_socket_send_ex}
use zktls_bench.Ws.Socket.Laws.{IsReady, Read, pending, recv_ex-Read}

-- A socket in order.
pub record Connection : Type 0 where
  pub socket : Socket
  pub ready : IsReady socket

-- A call of `RecvEx`, with fuel for each event and one.
abbrev pub receive : ℕ → Connection → List ℕ × Socket
receive n c = recv_ex (suc (length c.socket.events)) c.socket n []

pub receive_lem : (n : ℕ) (c : Connection) → Read (receive n c) c.socket [] n
receive_lem n c =
    recv_ex-Read (suc (length c.socket.events)) n c.socket [] n c.ready (omega arith) (omega arith)

-- `SocketStream` keeps the contract that the receivers rely on.
abbrev pub socket_channel : ConnectionType → Channel
socket_channel type = record {
  State = Connection;
  connection_type = type;
  recv_ex = λ n c.
      ((receive n c).0, record { socket = (receive n c).1; ready = (receive_lem n c).ready });
  pending = λ c. pending c.socket;
  recv_ex-full = λ n c h. ((receive_lem n c).bytes, (receive_lem n c).rest h);
  recv_ex-short =
      λ n c h. omega (arith, ap length (receive_lem n c).bytes, length-take n (pending c.socket));
}

pub send_lem :
    (bytes : List ℕ) (p : Peer)
    → (send bytes p).0 ≡ true
    → (send bytes p).1.packets ≡ p.packets ++ (bytes ∷ [])
unfolding send
send_lem bytes p h = go p.takes p.packets h
  where
    go :
        (takes : List Bool) (packets : List (List ℕ))
        → (send bytes (record { takes = takes; packets = packets })).0 ≡ true
        → (send bytes (record { takes = takes; packets = packets })).1.packets
          ≡ packets ++ (bytes ∷ [])
    go [] packets h = absurd (ground (arith, h))
    go (true ∷ takes) packets h = refl
    go (false ∷ takes) packets h = absurd (ground (arith, h))

-- `SocketStream::SendEx` keeps the contract that the senders rely on.
abbrev pub socket_send_stream : SendStream
socket_send_stream = record {
  State = Peer;
  send_ex = send;
  flush = λ p. p;
  sent = λ p. p.packets;
  send_ex-sent = send_lem;
}

-- `WebSocketStream::SendEx` sends one packet, the header of the payload and the payload, and reports
-- the length of the payload; if the kernel does not take it whole, the error of the connection.
pub web_socket_send_ex_lem :
    (type : ConnectionType) (buf : List ℕ) (p : Peer)
    → length buf < 2 ^ 64
    → web_socket_send_ex type buf p ≡ (
        let (done, p') = send (header_bytes (length buf) none ++ buf) p in
        if done then ok (length buf, p') else err (connection_error type "send message error"))
unfolding web_socket_send_ex
web_socket_send_ex_lem type buf p h =
    let n : ℕ = length buf in
    let e : gen_web_socket_header (replicate 14 0) n none
        ≡ (header_bytes n none ++ (slack n none ++ []), length (header_bytes n none)) =
      gen_web_socket_header_lem n none [] h in
    rw
      (
        e,
        take_append (length (header_bytes n none)) (header_bytes n none) (slack n none ++ []) refl,
      )
      refl
