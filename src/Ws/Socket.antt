-- ===== src/Ws/Socket.antt =====
-- `SocketStream` and `WebSocketStream` of network/ws.h. What ::recv and ::send give is a list of
-- events: one for each call, in order.
pub mod Laws
pub mod Stream
use zktls_bench.Prelude.{
  ℕ, zero, suc, ◌+◌, ◌-◌, ◌%◌, ◌^◌, Bool, true, false, Option, none, some, List, [], ◌∷◌, ◌++◌, ltb,
  ◌==◌, if◌then◌else◌, length, take, drop, replicate, overlay, min,
}
use zktls_bench.Errors.{Outcome, ok, err, fault, stuck, ConnectionType, connection_error}
use zktls_bench.Ws.Header.{gen_web_socket_header}

-- One call of ::recv: the bytes it delivers, none for the end of the stream; -1 with EAGAIN or
-- EINTR; -1 with any other error.
pub data RecvEvent : Type 0 where
  delivered : List ℕ → RecvEvent
  interrupted failed : RecvEvent

-- `SocketBuffer`
pub record SocketBuffer : Type 0 where
  pub buf : List ℕ
  pub size : ℕ
  pub offset : ℕ

pub record Socket : Type 0 where
  pub socket_buffer : SocketBuffer
  pub recv_again : Bool
  pub events : List RecvEvent

abbrev pub new_socket_buffer : SocketBuffer
new_socket_buffer = record { buf = replicate 1048576 0; size = 0; offset = 0 }

abbrev pub new_socket : List RecvEvent → Socket
new_socket events = record { socket_buffer = new_socket_buffer; recv_again = true; events = events }

-- `offset` is never above `size`.
abbrev pub available : SocketBuffer → ℕ
available b = b.size - b.offset

abbrev pub move_offset : SocketBuffer → ℕ → SocketBuffer
move_offset b n = record b { offset = b.offset + n }

-- ::recv into the buffer, and `reset` with the number of bytes.
abbrev pub refill : SocketBuffer → List ℕ → SocketBuffer
refill b bytes = record { buf = overlay bytes b.buf; size = length bytes; offset = 0 }

-- `Recv`: no bytes stand for a result of 0 or -1.
unfoldable pub recv : Bool → List RecvEvent → List ℕ × List RecvEvent
recv recv_again [] = ([], [])
recv recv_again (delivered bytes ∷ events) = (bytes, events)
recv recv_again (interrupted ∷ events) =
    let again = recv recv_again events in if recv_again then again else ([], events)
recv recv_again (failed ∷ events) = ([], events)

-- What `RecvEx` takes out of its buffer.
abbrev pub from_buffer : SocketBuffer → ℕ → List ℕ
from_buffer b n = take (min (available b) n) (drop b.offset b.buf)

-- `RecvEx` with the bytes `got` so far; each round that is not the last takes an event.
unfoldable pub recv_ex : ℕ → Socket → ℕ → List ℕ → List ℕ × Socket
recv_ex zero s nbytes got = (got, s)
recv_ex (suc fuel) s nbytes got =
    let b = s.socket_buffer in
    let to_read = min (available b) (nbytes - length got) in
    let got' = got ++ from_buffer b (nbytes - length got) in
    let b' = move_offset b to_read in
    let (bytes, events') = recv s.recv_again s.events in
    let rest =
      recv_ex fuel (record s { socket_buffer = refill b' bytes; events = events' }) nbytes got' in
    if ltb (length got') nbytes
    then if length bytes == 0
      then (got', record s { socket_buffer = b'; events = events' })
      else rest
    else (got', record s { socket_buffer = b' })

abbrev pub stop_recv : Socket → Socket
stop_recv s = record s { recv_again = false }

-- One call of ::send: whether the kernel takes the bytes, all of them.
pub record Peer : Type 0 where
  pub takes : List Bool
  pub packets : List (List ℕ)

-- A socket whose events are used up takes nothing.
unfoldable pub send : List ℕ → Peer → Bool × Peer
send bytes p = elim p.takes [
  | [] ↦ (false, p)
  | taken ∷ takes ↦ (
    taken,
    record { takes = takes; packets = if taken then p.packets ++ (bytes ∷ []) else p.packets },
  )
]

-- `WebSocketStream::SendEx`: the header and the bytes in one packet.
unfoldable pub web_socket_send_ex : ConnectionType → List ℕ → Peer → Outcome (ℕ × Peer)
web_socket_send_ex type buf p =
    let (header_data, header_bytes) = gen_web_socket_header (replicate 14 0) (length buf) none in
    let (done, p') = send (take header_bytes header_data ++ buf) p in
    if done then ok (length buf, p') else err (connection_error type "send message error")
