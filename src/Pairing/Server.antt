-- ===== src/Pairing/Server.antt =====
-- One datagram through the receive loop of embedded/core/src/transport/udp_server.h, with
-- `handlePairFrame` of embedded/core/src/abilities/pairing/pairing_task.h. The loop reads at most 20
-- bytes of a datagram. `d` holds what a pair request draws, and the answer of the store.
pub mod Commands
use desky.Prelude.{
  ℕ, ◌-◌, Bool, true, false, Option, List, [], ◌∷◌, ◌==◌, ◌!=◌, if◌then◌else◌, length, get_or, take,
}
use desky.Udp.{checksum}
use desky.Udp.Rx.{
  classify_rx, legacy, drive, pair_req, unpair, pair_refresh_req, alive, disconnect, manual_take,
  manual_release, expr_trigger, drop_frame,
}
use desky.Pairing.Session.{Session, Effect}
use desky.Pairing.Receive.{
  handle_legacy, handle_drive, handle_alive, handle_disconnect, handle_manual_take,
  handle_manual_release, handle_expr_trigger, handle_unpair,
}
use desky.Pairing.Enrol.{Draw, handle_pair_req}
use desky.Pairing.Refresh.{handle_pair_refresh}

-- The three functions of mbedtls.
pub record Crypto : Type 0 where
  pub hmac : List ℕ → List ℕ → Option (List ℕ)
  pub hkdf : List ℕ → List ℕ → List ℕ → Option (List ℕ)
  pub gcm : List ℕ → List ℕ → List ℕ → List ℕ → Option (List ℕ × List ℕ)

unfoldable pub handle_pair_frame :
    Crypto → ℕ → Session → List ℕ → ℕ → ℕ → ℕ → Draw → Session × List Effect
handle_pair_frame k header s buf ip port now d =
    if header == 0x50
    then handle_pair_req k.hkdf k.gcm s buf ip port now d
    else if header == 0xAD
    then handle_unpair k.hmac s buf now
    else if header == 0x53
    then handle_pair_refresh k.hmac k.hkdf s buf ip port now d.stored
    else if header == 0x57
    then handle_manual_take k.hmac s buf ip port now
    else if header == 0x58
    then handle_manual_release k.hmac s buf ip port now
    else if header == 0x5B
    then handle_expr_trigger k.hmac s buf ip port now
    else (s, [])

unfoldable pub dispatch : Crypto → Session → List ℕ → ℕ → ℕ → ℕ → Draw → Session × List Effect
unfolding handle_pair_frame
dispatch k s buf ip port now d = elim (classify_rx (length buf) (get_or buf 0 0)) [
  | legacy ↦ (handle_legacy s ip port, [])
  | drive ↦ handle_drive k.hmac s buf ip port now
  | pair_req ↦ handle_pair_frame k (get_or buf 0 0) s buf ip port now d
  | unpair ↦ handle_pair_frame k (get_or buf 0 0) s buf ip port now d
  | pair_refresh_req ↦ handle_pair_frame k (get_or buf 0 0) s buf ip port now d
  | manual_take ↦ handle_pair_frame k (get_or buf 0 0) s buf ip port now d
  | manual_release ↦ handle_pair_frame k (get_or buf 0 0) s buf ip port now d
  | expr_trigger ↦ handle_pair_frame k (get_or buf 0 0) s buf ip port now d
  | alive ↦ handle_alive k.hmac s buf ip port now
  | disconnect ↦ handle_disconnect k.hmac s buf now
  | drop_frame ↦ (s, [])
]

unfoldable pub receive : Crypto → Session → List ℕ → ℕ → ℕ → ℕ → Draw → Session × List Effect
unfolding dispatch
receive k s datagram ip port now d =
    let buf = take 20 datagram in
    let len = length buf in
    if len == 0
    then (s, [])
    else if checksum (take (len - 1) buf) != get_or buf (len - 1) 0
    then (s, [])
    else dispatch k s buf ip port now d
