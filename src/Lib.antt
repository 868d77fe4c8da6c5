-- ===== src/Lib.antt =====
-- xmpp-proxy: a verification library for the parts of the proxy that decide what is read from a
-- stream, what is sent on, to which server, and with which certificate.
--
-- The parts. A stream of bytes is cut into stanzas by a filter of a fixed size. A connection that
-- comes in is upgraded to TLS, shows in the header of its stream whether it is a client or a server,
-- must prove its domain if it is a server, and is then relayed, stanza by stanza, to a target. A
-- connection that goes out is relayed to the server that is found for its domain. Websockets carry
-- the same stanzas in another framing.
--
-- Prelude: numbers, lists, bytes, and `Outcome`, what a call comes to: a value, an error, a panic.
-- Slice, src/slicesubsequence.rs: a function for each of the trait's.
-- Filter, src/stanzafilter.rs: `StanzaFilter` is the record of the same fields, `dispatch` the match
--   on the state and `settle` what follows it; Filter.Reader the loops of `StanzaReader`;
--   Filter.Scan a machine with a growing buffer and Filter.Stanza a language of stanzas, both
--   specifications; Filter.Loops the program's loops over a reader.
-- Wire, src/common/mod.rs and src/in_out.rs: the two ends of a connection.
-- Starttls, src/tls/incoming.rs and src/tls/outgoing.rs, up to the handshakes.
-- Preamble and Relay, src/common/mod.rs: `stream_preamble` and `shuffle_rd_wr_filter_only`, which
--   Relay takes over byte streams and a byte at a time, Relay.Peers over either kind of stream and a
--   stanza at a time.
-- Websocket, src/websocket/mod.rs and src/in_out.rs.
-- Srv, src/srv.rs: Srv.Order and Srv.Sort the orders and `sort_dedup`, Srv.Links the host-meta
--   links, Srv.Lookup and Srv.Connections `get_xmpp_connections`, Srv.Connect `srv_connect`,
--   Srv.Posh the fingerprints.
-- Verify, src/verify.rs: `verify_cert`.
-- Incoming, src/common/incoming.rs: the check of a server and the opening of the target.
-- Session, src/in_out.rs and src/common/mod.rs: either kind of reader, and `stream_preamble` over it.
-- Handle, src/tls/incoming.rs, src/websocket/incoming.rs, src/quic/incoming.rs and
--   src/webtransport/incoming.rs: an incoming connection from its first byte to the relay.
-- Dial, src/tls/outgoing.rs, src/quic/outgoing.rs, src/websocket/outgoing.rs and
--   src/webtransport/outgoing.rs: the transports of the connections.
-- Outgoing, src/outgoing.rs: `handle_outgoing_connection` from the first byte to the relay.
-- Listen, the loops of src/tls/incoming.rs, src/outgoing.rs and src/quic/incoming.rs that accept
--   connections, with src/common/stream_listener.rs.
-- Peek, src/common/mod.rs: the peeks with their limits of time.
-- Context, src/context.rs.
-- Systemd, src/systemd.rs.
-- Startup, src/main.rs: Startup.Addresses and Startup.Config the configuration, Startup.Place the
--   sockets of systemd, Startup.Run `main`; Startup.Certs, src/common/certs_key.rs and the reload of
--   the key; Startup.Tls what is asked of the TLS library.
--
-- A byte and every number of the program is a natural number. The loop of a reader is structural
-- recursion on the bytes of its stream. A loop over a reader takes fuel, one more than the length of
-- the stream, and each of its rounds reads a byte. A stream to read is the bytes that come in time
-- and how it ends; a stream to write is what was sent and how many further calls go through.
-- A loop with a limit of time takes as fuel its rounds; any number above that of the round at which
-- the limit has passed is enough. What the runtime finds at a call, and the clock, are functions.
-- The resolver, HTTPS, the certificate library, the hashes, the printed addresses, the files, the
-- calls on sockets and the handshakes are parameters, and so is the standard library's sort by the
-- order of connections, which is no total order. The order of two directions of a relay is any
-- sequence of steps.
--
-- Not modelled: sockets, TLS, QUIC and the runtime, which are libraries; the writing of
-- the log; TOML, PEM and the reading of files.
pub mod Prelude
pub mod Context
pub mod Dial
pub mod Filter
pub mod Handle
pub mod Incoming
pub mod Listen
pub mod Outgoing
pub mod Peek
pub mod Preamble
pub mod Relay
pub mod Session
pub mod Slice
pub mod Srv
pub mod Starttls
pub mod Startup
pub mod Systemd
pub mod Verify
pub mod Websocket
pub mod Wire
pub mod Tests
