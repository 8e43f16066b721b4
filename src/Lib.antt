-- ===== src/Lib.antt =====
-- paqet: a transport that carries TCP and UDP streams over KCP in hand-made TCP packets. This
-- library models its core and proves what makes it correct.
--
-- The program's parts. A client (internal/client) keeps KCP connections to a server, finds by a
-- probe which TCP flags pass the network, tells the server which flags to answer with, and opens
-- a stream of a connection for each TCP connection or UDP pair. The server (internal/server)
-- handles each stream by its first message (internal/protocol) and relays it to its target.
-- Below, a packet connection (internal/socket) sends each packet with flags and sequence numbers
-- kept per peer. The configuration (internal/conf) fixes the parameters of all of them.
--
-- The files, each with its proofs in files below it and its tests in its own Runs:
--   Flags: TCPF and strTCPF (internal/conf/tcp.go), parseFlagStr and tcpfToStr
--     (internal/client/flag_cycler.go), the flags word (internal/protocol/protocol.go)
--   Protocol: Read and Write of a message (internal/protocol/protocol.go)
--   Iterator: Next and Peek (internal/pkg/iterator/iterator.go)
--   Cycler: the rotation over flag combinations (internal/client/flag_cycler.go)
--   Address: IPAddr (internal/pkg/hash/ip_addr.go)
--   Send: the send handle (internal/socket/send_handle.go)
--   Socket: recvLoop and ReadFrom (internal/socket/socket.go) with their pool of buffers, and the
--     channel of messages that they promise; Socket/Recv: RecvHandle.Read (recv_handle.go) and
--     WriteTo; Socket/Open: New, Close and the calls of pcap (handle.go, send_handle.go,
--     recv_handle.go); Socket/Exchange: a packet from WriteTo to Read and its answer
--   Transport: Ping, Close, Dial, Accept and the parameters of a mode (internal/tnet/kcp)
--   Server: handleStrm and the life of a connection (internal/server/handle.go, ping.go,
--     server.go); Server/Life: the goroutines of Start, listen and handleConn, and the packets
--     beside them
--   Conf: defaults and validation (internal/conf)
--   Relay: the relays (internal/server/tcp.go and udp.go, internal/forward/tcp.go,
--     internal/socks/tcp_handle.go)
--   Client: the startup probe (internal/client/timed_conn.go); Client/Reconnect: newConn and the
--     health check (internal/client/dial.go, timed_conn.go); Client/UdpPool: UDP and udpPool
--     (internal/client/udp.go); Client/Verify: verifyBidirectional (timed_conn.go);
--     Client/Streams: newStrm (dial.go), TCP (tcp.go), Start and its shutdown (client.go)
--   Datagrams: the datagrams of UDP pairs (internal/forward/udp.go, internal/socks/udp_handle.go)
--   Forwarder: listenTCP (internal/forward/tcp.go)
--   Socks: TCPHandle and the reply (internal/socks/tcp_handle.go); Socks/Wait: the end of
--     handleUDPAssociate (udp_handle.go)
--   Probe: the probe command (cmd/probe/probe.go)
--   Autoconf: Detect on Linux (internal/autoconf/autoconf.go, detect_linux.go); Autoconf/Darwin and
--     Autoconf/Windows: on macOS and Windows (detect_darwin.go, detect_windows.go)
--   Command: the run command (cmd/run) and Start of a forwarder (internal/forward/forward.go);
--     Command/Ping: the ping command (cmd/ping/ping.go)
--   Buffers: the pools of copy buffers, CopyT and CopyU (internal/pkg/buffer)
--   Log: WErr (internal/flog/error.go), logf and the channel of messages (flog.go)
--   Prelude: shared names, tests, lists, integers, bits, association lists, texts, updates,
--     places in lists
--
-- How the code is read. A function that changes a structure takes its state and returns the next
-- one; a panic is `none`. Work under a lock is one step, and goroutines are sequences of such
-- steps in every order: a list of them, or a derivation of a step relation (Server/Life,
-- Forwarder, Socks/Wait), where the environment chooses what blocking calls return. A stream is
-- the list of the bytes that can be read from it. An int is an ℤ without bounds, except where the
-- code converts it; unsigned integers and durations wrap as in Go. Loops are structural recursion:
-- probe_loop and newStrm's rounds run on the number of rounds that the code's loops run on. The
-- loop of verifyBidirectional has fuel, one round for each nanosecond of the timeout and one more,
-- which is enough because a failing Ping takes time (Client/Verify/Bounds).
--
-- What is outside. KCP, smux, pcap, gopacket, the SOCKS5 server, the resolver, the system's
-- tables and the parsers of Go's standard library are arguments: a Probe, a World, an Env, a
-- System, a Strm or an Event is what they answer, and a theorem that needs gopacket's decoding
-- has it as a hypothesis on one packet. Random numbers are arguments. A clock is a
-- number of nanoseconds; a deadline that is set may pass at any time, unless its value matters.
--
-- Not modelled: the loop of listenUDP and the listener of SOCKS5, copying between streams, and the
-- commands but for run, ping and probe.
pub mod Prelude
pub mod Flags
pub mod Forwarder
pub mod Protocol
pub mod Iterator
pub mod Log
pub mod Cycler
pub mod Address
pub mod Send
pub mod Server
pub mod Socket
pub mod Transport
pub mod Command
pub mod Conf
pub mod Datagrams
pub mod Socks
pub mod Relay
pub mod Buffers
pub mod Client
pub mod Probe
pub mod Autoconf
