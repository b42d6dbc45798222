-- ===== src/WebSocketIo/Sockets.antt =====
-- A `SocketStream` is what `WebSocketIO` needs: a socket to receive from and a peer to send to.
use zktls_bench.Prelude.{refl}
use zktls_bench.Errors.{ConnectionType}
use zktls_bench.Ws.Socket.{Peer, send}
use zktls_bench.Ws.Socket.Stream.{Connection, socket_channel, send_lem}
use zktls_bench.WebSocketIo.{Duplex}

pub socket_duplex : ConnectionType → Duplex
socket_duplex type =
    let ch = socket_channel type in
    record {
      State = Connection × Peer;
      connection_type = type;
      send_ex = λ p s. ((send p s.1).0, (s.0, (send p s.1).1));
      flush_stream = λ s. s;
      sent = λ s. s.1.packets;
      recv_ex = λ n s. ((ch.recv_ex n s.0).0, ((ch.recv_ex n s.0).1, s.1));
      pending = λ s. ch.pending s.0;
      send_ex-sent = λ p s. send_lem p s.1;
      send_ex-pending = λ p s. refl;
      flush_stream-sent = λ s. refl;
      flush_stream-pending = λ s. refl;
      recv_ex-sent = λ n s. refl;
      recv_ex-full = λ n s. ch.recv_ex-full n s.0;
      recv_ex-short = λ n s. ch.recv_ex-short n s.0;
    }
