-- ===== src/Relay.antt =====
-- internal/relay: the association with the relay, here its wire framing.
pub mod Frame
mod Tests
