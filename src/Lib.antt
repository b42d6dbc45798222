-- ===== src/Lib.antt =====
-- The networking layer of the Primus benchmark, primus/bench/network: how it frames, sends, receives,
-- queues and hands out connections.
--
-- The parts, and where they are modelled:
--   Prelude      Boolean tests, lists over the native numbers, bytes and bits, and texts.
--   Errors       network/common/runtime_error.h and throw_connection_error of network/ws.h: what may be
--                thrown, and the outcome of code that may throw, read wrongly or loop.
--   Registry     network/common/runtime_error.cpp: the registry of exception classes.
--   Ws           network/ws.h and network/ws.cpp. Header: GenWebSocketHeader and the readers of a
--                header. Mask: UnMaskData and WebSocketMessageUnmaskPayload. Base64: base64_encode.
--                SendBuffer, FlushCtx, Send: SendBuffer, FlushCtx, SendMessage, AsyncSendMessage,
--                AsyncFlushMessage, over the interface SendStream. Recv: RecvCtx with PutToRecvCtx and
--                RecvFromRecvCtx, as a byte queue (Queue, Reading) and as a list of chunks (Chunks).
--                Message: RecvMessageHeader and both RecvMessage, over the interface Channel.
--                Socket: SocketStream and WebSocketStream, which fill both interfaces. Url: IpPort and
--                parse_url. Handshake: the handshake functions and GetHttpHeader.
--   WebSocketIo  network/websocket_io_channel.h and network/websocket_io_channel.cpp: the channel, its
--                flush thread (with AsyncFlushMessage of network/ws.cpp) and its destructor, over the
--                interface Duplex. Steps, Stop, Reachable, Wakes, Live: the senders' side. Reads, Pair:
--                the receivers' side, and two channels together. Sockets: sockets fill Duplex.
--   IoManager    network/io_manager.cpp. Ports: get_unused_port and free_used_port. Exceptions:
--                check_exception_frequency. Manager: the locked sections of init_pado_io, accept and
--                clear_pado_io. Server: these sections as the steps of all threads of a server.
--                Connect: the threads of connect_pado_io.
--   PadoChannel  network/pado_io_channel.h: send_size and recv_size.
--   Proxy        network/proxy_client.h and network/proxy_client.cpp. Calls: the calls that wait for
--                an answer. SendProxy and RecvProxy: the queues of the client. Bytes: WaitForBytes.
--                Requests: send3 and check_network. Functions: the other requests and process_send,
--                with theorems on socket3, shutdown3 and connect3 in Functions.Requests, and
--                getaddrinfo3 in Addresses. Receiving: do_recv, process_recv and recv3. Network:
--                process_network.
--   Tests        runs of the theorems at concrete inputs.
--
-- The receivers rest on the receive context, the receive context of the proxy client is the same one
-- that RecvMessage fills, and both sides of a connection meet in the frames of Ws.Send.Progress.
--
-- Conventions. The build without __EMSCRIPTEN__, with ENABLE_MASK 0, on a little-endian host. A byte
-- is a number below 256, a buffer its list of bytes, a pointer into it an index. 64-bit sums wrap.
-- A mutex makes what it guards one step. The threads of connect_pado_io and the flush thread fall
-- asleep on their condition variables, and only a notify wakes them. The proxy client's SendEx is a
-- parameter, which may throw. The outcome `fault` is undefined behaviour or a failed
-- assert. malloc does not fail. The kernel is a list of events, one for each call.
--
-- Fuel. RecvMessage takes fuel for each frame that it may read, and one; RecvEx for each event, and
-- one; a read of the proxy client for each byte, and one; the search for a port 1023 rounds; the flush
-- thread a round for each queued packet, and one. The theorems give that much and say that it is enough.
--
-- Not modelled: SHA-1 (network/sha1.cpp) and the JSON library (include/json.hpp), which are copies
-- of other projects; OpenSSL, emp and the Emscripten streams; getaddrinfo and SHA-1 are parameters;
-- network/emp_io_channel.cpp, a loop over stdio; the loop of listen and PortManager; what the
-- constructors and Init do to open sockets; the drivers in zk_tls, which measure libraries that are
-- not in the repository; printing.
pub mod Prelude
pub mod Errors
pub mod Registry
pub mod Ws
pub mod IoManager
pub mod PadoChannel
pub mod Proxy
pub mod WebSocketIo
pub mod Tests
