-- ===== src/Pairing/Peer.antt =====
-- The single-peer slot and the alive window: embedded/core/src/transport/connection_manager.h, with
-- `UdpServer::markAlive` of udp_server.h. A token is its `valid_` flag; its being used once is a
-- matter of C++ types and not modelled. The window is `udpstatus::kAliveMs`.
use desky.Prelude.{ℕ, Bool, true, false, not, ◌&&◌, leb, sub32, if◌then◌else◌}
use desky.Udp.Rx.{alive_ms}

pub record Peer : Type 0 where
  pub peer : ℕ
  pub have : Bool
  pub last_ms : ℕ

abbrev pub cleared : Peer
cleared = record { peer = 0; have = false; last_ms = 0 }

-- The verdicts of `Checks`, folded into one token.
abbrev pub verify : Bool → Bool → Bool → Bool → Bool
verify paired era_ok fresh hmac_ok = paired && era_ok && fresh && hmac_ok

unfoldable pub mark_alive : Peer → Bool → ℕ → ℕ → Peer
mark_alive p valid peer_u32 now =
    if not valid then p else record { peer = peer_u32; have = true; last_ms = now }

unfoldable pub pin_peer : Peer → ℕ → Peer
pin_peer p peer_u32 = record p { peer = peer_u32; have = true }

unfoldable pub refresh_then_clear : Peer → Bool → ℕ → Peer
refresh_then_clear p valid now = if not valid then p else record p { have = false; last_ms = now }

unfoldable pub is_alive : Peer → ℕ → Bool
is_alive p now = p.have && leb (sub32 now p.last_ms) alive_ms
