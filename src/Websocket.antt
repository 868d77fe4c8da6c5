-- ===== src/Websocket.antt =====
-- src/websocket/mod.rs: `from_ws` and `to_ws_new`, between the framing of RFC 7395 and a stream; and
-- src/in_out.rs: `StanzaRead` and `StanzaWrite` over a websocket.
pub mod Text
pub mod Framing
pub mod Namespaces
pub mod Declares
pub mod Opens
pub mod Messages
