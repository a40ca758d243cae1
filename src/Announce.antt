-- ===== src/Announce.antt =====
-- internal/relay/handler.go: the notices that tell phones and bridges about each other
-- (`announceTargetChanges`, `announcePresence`, `writeControl`). A notice is the connection that it
-- is written to and the message; the writes are in the order in which the code makes them.
pub mod Views
pub mod Phones
pub mod Bridges
use sesori_relay_server.Prelude.{ℕ, Bool, List, [], ◌∷◌, ◌++◌, Option, none, some, Text}
use sesori_relay_server.AccountGroup.{Connection, TargetChange}

-- The control messages of internal/protocol/messages.go that the relay writes.
pub data Control : Type 0 where
  phone_connected phone_disconnected : ℕ → Control
  bridge_connected bridge_disconnected : Text → Control
  bridge_presence : Text → Bool → Control

pub record Notice : Type 0 where
  pub to : Connection
  pub message : Control

unfoldable pub write_control : Connection → Control → Notice
write_control conn message = record { to = conn; message = message }

-- What follows the notice to the previous bridge: the phone's notice and the new bridge's.
unfoldable pub announce_next : TargetChange → List Notice
unfolding write_control
announce_next change = elim change.next [
  | none ↦ write_control change.phone (bridge_disconnected change.previous_bridge_id) ∷ []
  | some next ↦
      write_control change.phone (bridge_connected next.bridge_id)
      ∷ write_control next (phone_connected change.phone.conn_id)
      ∷ []
]

-- One round of the loop of `announceTargetChanges`.
unfoldable pub announce_change : TargetChange → List Notice
unfolding announce_next write_control
announce_change change = elim change.previous [
  | none ↦ announce_next change
  | some previous ↦
      write_control previous (phone_disconnected change.phone.conn_id) ∷ announce_next change
]

unfoldable pub announce_target_changes : List TargetChange → List Notice
announce_target_changes [] = []
announce_target_changes (change ∷ changes) =
    announce_change change ++ announce_target_changes changes

unfoldable pub announce_presence : List Connection → Text → Bool → List Notice
unfolding write_control
announce_presence [] bridge_id online = []
announce_presence (phone ∷ phones) bridge_id online =
    write_control phone (bridge_presence bridge_id online)
    ∷ announce_presence phones bridge_id online
