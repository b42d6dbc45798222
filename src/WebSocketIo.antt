-- ===== src/WebSocketIo.antt =====
-- `WebSocketIO` of network/websocket_io_channel.h and network/websocket_io_channel.cpp, in the native
-- build with OUTPUT_PERF_DATA and RECORD_SEND_RECV 0: bytes handed over are buffered, queued for the
-- flush thread or sent, and a read flushes first.
pub mod Fields
pub mod Reads
pub mod Steps
pub mod Stop
pub mod Reachable
pub mod Wakes
pub mod Live
pub mod Pair
pub mod Sync
pub mod Sockets
use zktls_bench.Prelude.{
  ℕ, zero, suc, ◌<◌, ◌≤◌, Bool, true, false, not, ◌||◌, Option, none, some, List, [], ◌∷◌, ◌++◌,
  ◌≡◌, ltb, if◌then◌else◌, length, take, drop,
}
use zktls_bench.Errors.{Outcome, ok, stuck, ◌>>=◌, ConnectionType}
use zktls_bench.Ws.FlushCtx.{FlushCtx, get_from_flush_ctx, empty_flush_ctx}
use zktls_bench.Ws.Send.{
  SendStream, SendCtx, new_send_ctx, send_message, async_send_message, async_flush_message,
}
use zktls_bench.Ws.Channel.{Channel}
use zktls_bench.Ws.Recv.{RecvCtx, new_recv_ctx}
use zktls_bench.Ws.Message.{recv_message}

-- What `WebSocketIO` uses of its `ChannelStream`: the senders' and the receivers' part at once. What
-- one direction does shows nothing in the other.
pub record Duplex : Type 1 where
  pub State : Type 0
  pub connection_type : ConnectionType
  pub send_ex : List ℕ → State → Bool × State
  pub flush_stream : State → State
  pub sent : State → List (List ℕ)
  pub recv_ex : ℕ → State → List ℕ × State
  pub pending : State → List ℕ
  pub send_ex-sent :
      (p : List ℕ) (s : State) → (send_ex p s).0 ≡ true → sent (send_ex p s).1 ≡ sent s ++ (p ∷ [])
  pub send_ex-pending : (p : List ℕ) (s : State) → pending (send_ex p s).1 ≡ pending s
  pub flush_stream-sent : (s : State) → sent (flush_stream s) ≡ sent s
  pub flush_stream-pending : (s : State) → pending (flush_stream s) ≡ pending s
  pub recv_ex-sent : (n : ℕ) (s : State) → sent (recv_ex n s).1 ≡ sent s
  pub recv_ex-full :
      (n : ℕ) (s : State)
      → n ≤ length (pending s)
      → ((recv_ex n s).0 ≡ take n (pending s)) × (pending (recv_ex n s).1 ≡ drop n (pending s))
  pub recv_ex-short : (n : ℕ) (s : State) → length (pending s) < n → length (recv_ex n s).0 < n

-- `flush_thread`, with what the thread is at: between rounds, or in `SendEx` with a packet that is no
-- longer queued.
pub data FlushThread : Type 0 where
  not_started waiting : FlushThread
  sending : List ℕ → FlushThread

pub record WebSocketIo (S : Type 0) : Type 0 where
  pub is_server : Bool
  pub has_sent : Bool
  pub send_ctx : SendCtx
  pub recv_ctx : RecvCtx
  pub channel_stream : S
  pub flush_thread : FlushThread

module _ (d : Duplex) where
  open d use {State, connection_type, send_ex, flush_stream, sent, recv_ex, pending}

  abbrev pub Io : Type 0
  Io = WebSocketIo State

  abbrev pub sender : SendStream
  sender = record {
    State = State;
    send_ex = send_ex;
    flush = flush_stream;
    sent = sent;
    send_ex-sent = d.send_ex-sent;
  }

  abbrev pub receiver : Channel
  receiver = record {
    State = State;
    connection_type = connection_type;
    recv_ex = recv_ex;
    pending = pending;
    recv_ex-full = d.recv_ex-full;
    recv_ex-short = d.recv_ex-short;
  }

  -- The state that the constructor leaves, with the stream of `Init`; `now` is time(NULL).
  abbrev pub new_io : Bool → ℕ → State → Io
  new_io is_server now s = record {
    is_server = is_server;
    has_sent = false;
    send_ctx = new_send_ctx now;
    recv_ctx = new_recv_ctx;
    channel_stream = s;
    flush_thread = not_started;
  }

  -- The -1 of `SendMessage` is not looked at.
  unfoldable pub hand_over : List ℕ → ℕ → Io → Io
  hand_over bytes now io =
      if io.send_ctx.async
      then record io { send_ctx = (async_send_message io.send_ctx bytes now).1 }
      else record io {
        send_ctx = (send_message sender io.send_ctx bytes now io.channel_stream).1;
        channel_stream = (send_message sender io.send_ctx bytes now io.channel_stream).2;
      }

  unfoldable pub send_data_internal : List ℕ → ℕ → Io → Io
  send_data_internal bytes now io =
      if ltb 0 (length bytes)
      then record (hand_over bytes now io) { has_sent = true }
      else hand_over bytes now io

  -- `flush(true)`
  unfoldable pub flush : ℕ → Io → Io
  flush now io =
      let handed = send_data_internal [] now io in
      record handed { channel_stream = flush_stream handed.channel_stream }

  -- What `recv_data_internal` does before it reads.
  unfoldable pub flush_sent : ℕ → Io → Io
  flush_sent now io = if io.has_sent then record (flush now io) { has_sent = false } else io

  after_read : Io → Outcome (List ℕ × RecvCtx × State) → Outcome (List ℕ × Io)
  after_read io r = do
    (bytes, ctx, s) ← r
    ok (bytes, record io { recv_ctx = ctx; channel_stream = s })

  -- The fuel is that of `recv_message`.
  unfoldable pub recv_data_internal : ℕ → ℕ → ℕ → Io → Outcome (List ℕ × Io)
  unfolding after_read
  recv_data_internal fuel len now io =
      let io' = flush_sent now io in
      after_read io' (recv_message receiver fuel io'.recv_ctx len [] io'.channel_stream)

  -- One byte each way. The client answers with the byte that it was sent.
  unfoldable pub sync : ℕ → ℕ → Io → Outcome Io
  sync fuel now io =
      if io.is_server
      then (do
        (tmp, io') ← recv_data_internal fuel 1 now (send_data_internal (0 ∷ []) now io)
        ok io')
      else (do
        (tmp, io') ← recv_data_internal fuel 1 now io
        ok (flush now (send_data_internal tmp now io')))

  abbrev pub set_async : Bool → Io → Io
  set_async b io = record io { send_ctx = record io.send_ctx { async = b } }

  unfoldable pub start_async_flush : ℕ → Io → Io
  start_async_flush now io =
      if io.send_ctx.async
      then io
      else record (set_async true (flush now io)) { flush_thread = waiting }

  -- What `stop_async_flush` does under the lock: it ends the asynchronous mode and wakes the thread.
  abbrev pub end_async : Io → Io
  end_async io = record io {
    send_ctx = record io.send_ctx {
      async = false;
      flush_ctx = record io.send_ctx.flush_ctx { asleep = false };
    };
  }

  abbrev pub take_by : FlushThread → Option (List ℕ) × FlushCtx → Io → Io
  take_by waiting (some p, rest) io = record io {
    send_ctx = record io.send_ctx { flush_ctx = rest };
    flush_thread = sending p;
  }
  take_by waiting (none, rest) io = record io {
    send_ctx = record io.send_ctx { flush_ctx = record rest { asleep = io.send_ctx.async } };
  }
  take_by not_started r io = io
  take_by (sending p) r io = io

  -- The first half of `AsyncFlushMessage`, under the lock, by the flush thread: it takes a packet or
  -- falls asleep. While it is asleep it does nothing.
  unfoldable pub take_packet : Io → Io
  take_packet io =
      if io.send_ctx.flush_ctx.asleep
      then io
      else take_by io.flush_thread (get_from_flush_ctx io.send_ctx.flush_ctx) io

  abbrev pub send_by : FlushThread → Io → Io
  send_by not_started io = io
  send_by waiting io = io
  send_by (sending p) io =
      let (done, s) = send_ex p io.channel_stream in
      record io { channel_stream = if done then flush_stream s else s; flush_thread = waiting }

  -- The second half. The packet is freed whether it was sent or not.
  unfoldable pub send_packet : Io → Io
  send_packet io = send_by io.flush_thread io

  -- The loop of the flush thread, with fuel for each round and one. A thread that is asleep is not woken
  -- while the main thread waits for it to end.
  unfoldable pub async_flush : ℕ → SendCtx → State → Outcome (SendCtx × State)
  async_flush zero ctx s = stuck
  async_flush (suc fuel) ctx s =
      let (ctx', s') = async_flush_message sender ctx s in
      let rest = async_flush fuel ctx' s' in
      if ctx.flush_ctx.asleep
      then stuck
      else if ctx.async || not (empty_flush_ctx ctx.flush_ctx)
      then rest
      else ok (ctx, s)

  after_join : ℕ → Io → Outcome (SendCtx × State) → Outcome Io
  after_join now io r = do
    (ctx, s) ← r
    ok (flush now (record io { send_ctx = ctx; channel_stream = s; flush_thread = not_started }))

  -- The thread ends the packet that it is at, and joins when the queue is empty.
  unfoldable pub stop_async_flush : ℕ → ℕ → Io → Outcome Io
  unfolding after_join
  stop_async_flush fuel now io =
      if io.send_ctx.async
      then (let io' = send_packet (end_async io) in
          after_join now io' (async_flush fuel io'.send_ctx io'.channel_stream))
      else ok io

  -- The destructor.
  unfoldable pub close : ℕ → ℕ → Io → Outcome Io
  close fuel now io = do io' ← stop_async_flush fuel now io; ok (flush now io')
