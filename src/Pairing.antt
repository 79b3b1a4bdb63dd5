-- ===== src/Pairing.antt =====
-- The pairing session: the one-time code of embedded/core/src/abilities/pairing/pairing_manager.h
-- (`Pairing.Code`), the peer slot of embedded/core/src/transport/connection_manager.h, the tag
-- messages of abilities/pairing/pairing_codec.h, and the session of abilities/pairing/pairing_task.h.
pub mod Code
pub mod Peer
pub mod Tags
pub mod Session
pub mod Receive
pub mod Enrol
pub mod Refresh
pub mod Server
pub mod Button
