-- ===== src/Lib.antt =====
-- fim is an instant messaging system of three parts. A gateway (gateway/wss) holds the websocket
-- connections of clients. A logic server (server) handles their messages. A cluster proxy (lgcluster),
-- which runs inside the gateway, finds a logic server for each message. Clients send messages of a
-- ten-byte header and a payload; gateway and logic server exchange relay packets, which wrap such a
-- message with its sender and its receivers, in frames of a connection that begins with a handshake.
--
-- Files and code:
-- - Base: what every module uses. Base/Acts.antt has Outcome, a result, an error or a panic; Go code
--   that returns an error is a function from a state to an Outcome. Base/Decimal.antt is
--   strconv.Itoa, and Base/GoMap.antt a Go map as an association list in which an insertion replaces
--   the entry of its key.
-- - Wire/Buffer.antt: bytes.Buffer, io.ReadFull and io.Writer. Wire/Uint.antt: encoding/binary's
--   BigEndian. Wire/Common.antt and Wire/Sid.antt: wire/common.go. Wire/Common/Sequence.antt: all
--   readers behind all writers.
-- - Wire/Pid.antt, Wire/AckCode.antt, Wire/Protocol.antt, Wire/Header.antt, Wire/Message.antt and
--   Wire/Relay.antt: wire/message.go, with ReadX and WriteX as read_x and write_x, and a method of a
--   type in the module of that type (Message.Decode is Wire.Message.decode). Wire/Entity.antt: the
--   messages of wire/entity.pb.go.
-- - Wire/Text.antt: the texts of wire/message.go for the log. Wire/Common/Typing.antt and
--   Wire/Relay/WellFormed.antt: what the readers give of any bytes. Wire/GrpcHelper.antt:
--   wire/grpc_helper.go. Peer/Net.antt: peer/net.go. Peer/Unsafe.antt: peer/unsafe.go.
-- - Peer/Seq.antt: peer/seq.go, one step for each atomic operation. Peer/Event.antt: peer/event.go.
-- - Peer/OpCode.antt, Peer/Frame.antt, Peer/Handshake.antt and Peer/Stream.antt: peer/tcp_peer.go,
--   its frames, both ends of its handshake (Upgrade and ConnectServer), and readHandler's loop.
-- - Peer/Server.antt: Server of peer/tcp_peer.go, with Start in two parts, since a read loop may end
--   between them; Peer/Server/Lifecycle.antt has the operations in any order, and
--   Peer/Server/Heartbeat.antt the pings of its ticker.
-- - Peer/Client.antt: peer/ws_client.go, its messages, pushes and states. Peer/Client/Reading.antt: the
--   loop of readHandler. Peer/Client/Lifecycle.antt: the atomic steps of Start, Push, Close and of the
--   end of the loop, in any order.
-- - Gateway/Queue.antt: the goroutines packetPushEnqueueHandler and packetPushDequeueHandler of
--   gateway/wss/hub.go and their three channels, as a step relation, of which the
--   end of a packet's handler is enabled only where the handler returns. Gateway/Hub.antt: the handlers
--   that the second of them calls, Push and Shutdown. Gateway/Hub/Events.antt: the loops over what
--   comes from clients (handleClientEvents) and from logic servers (handleSeverEvents, behind
--   Receive). Gateway/Hub/Hollow.antt: the packets that the handlers send. Gateway/Running.antt:
--   queue, handlers and the messages of clients together, in any order. Gateway/Hub/Registry.antt:
--   which identifiers are registered, as a function, and what a packet is to do with them.
-- - Gateway/Upgrader/Text.antt, Gateway/Upgrader/Parameters.antt and
--   Gateway/Upgrader/Connection.antt: gateway/wss/upgrader.go. The callbacks that upgradeConn gives
--   to the websocket library are functions on the fields that they share, applied in the order of a
--   request. Gateway/Upgrader/Listening.antt: the rounds of listen of gateway/wss/hub.go and the jobs
--   that they put into a pool.
-- - Lgcluster/Cluster.antt: lgcluster/cluster.go; the order in which a range visits a map is an
--   argument. Lgcluster/Cluster/Connecting.antt: how the cluster connects and reconnects.
--   Lgcluster/Proxy.antt: lgcluster/proxy.go, with Send, Start and Shutdown in
--   Lgcluster/Proxy/Channel.antt. LgServer.antt: server/hub/hub.go; LgServer/Gateways.antt: its loops
--   over gateways, over the messages for them and over the connections of its listener. Handler.antt:
--   server/handler, which LgServer hands its packets to, with its pools in
--   Handler/Pools.antt.
-- - Routes: the parts one behind the other. Routes/Link.antt: relay packets on a connection.
--   Routes/Uplink.antt: from the clients of a gateway to the handlers of a logic server.
--   Routes/Sending.antt and Routes/Writing.antt: what the proxy and a logic server write to one.
--   Routes/Downlink.antt: from a logic server to the queue of a gateway. Routes/Logins.antt: what the
--   gateway sends when clients come and go.
-- - Programs.antt: gateway/main.go, server/main.go and namesrv/client/discover.go. The cluster's field
--   `started` says whether a program has started its proxy.
-- - Tests.antt under each part: concrete values, of which those that are shared stand in a Samples.antt.
--
-- Numbers are the native natural numbers. Conversions to uint16 and uint32 keep the remainder, and a
-- byte is any number: no reader looks at the bound, and each theorem says which bounds it needs.
--
-- Fuel: the read loop of a server connection and the loop of handleMessage run on the number of bytes
-- that have come, and one more. Each round that goes on takes at least one byte, so this is enough,
-- and the results of both carry whether the loop has ended. The read loop of a client reads frames
-- through a library, and its fuel is the number of frames and one more. Next of peer/seq.go is at
-- most three steps when nothing comes between, and has four. Itoa has 20 digits, enough below 2 ^ 64.
--
-- Parameters: github.com/segmentio/ksuid (Wire.Ksuid), github.com/golang/protobuf (Wire.Entity.Proto),
-- net.Conn (Peer.Stream.NetConn), github.com/gobwas/ws and github.com/juju/ratelimit
-- (Peer.Client.WsConn, Peer.Client.Reading.WsReader), grpool (Handler.Grpool), and net/url,
-- github.com/hashicorp/go-version and github.com/imdario/mergo
-- (Gateway.Upgrader.Connection.Packages). What viper and ksuid.NewRandom give are arguments of
-- Programs, the addresses of package net one of Peer.Net, and status.FromError of
-- google.golang.org/grpc one of Wire.GrpcHelper. What is assumed of them is in KsuidLaws (bytes have
-- their documented length and are read back), ProtoLaws (Unmarshal reads back what Marshal wrote),
-- NoPanic (writes give a result or an error) and Carries (frames come as they were sent); of grpool,
-- Handler/Starved.antt assumes that a pool without workers and queue takes one job at most.
--
-- Not modelled: time, logs and metrics; the listeners, which are net/http and net; signals; the memory
-- that the texts of a websocket upgrade, and the conversions of peer/unsafe.go, share; what the
-- workers of a pool do; the version in a client's attributes behind the upgrade, and that the
-- attributes themselves are nil once a client's read loop has ended, so that a read of them panics;
-- the generated code of the protobuf files.
pub mod Base
pub mod Wire
pub mod Peer
pub mod Gateway
pub mod Lgcluster
pub mod LgServer
pub mod Routes
pub mod Programs
pub mod Handler
