-- ===== src/World/Late/Pieces.antt =====
-- internal/relay/handler.go: whom the pieces of a handler's effects are about, from whom they are
-- given.
use sesori_relay_server.Prelude.{
  ℕ, ◌≡◌, refl, inl, inr, arith, true, false, Bool, List, [], ◌∷◌, Option, none, some, Text, All,
}
use sesori_relay_server.AccountGroup.{Connection, AccountGroup, bridge_for_phone}
use sesori_relay_server.AccountGroup.Invariant.{}
use sesori_relay_server.AccountGroup.Methods.{}
use sesori_relay_server.AccountGroup.Routing.{Within}
use sesori_relay_server.Announce.{write_control}
use sesori_relay_server.Handler.Bridge.{
  BridgeSession, status_reported, displace, takeover, when, bridge_payload, policy_message,
  policy_update, to_phones, to_phone,
}
use sesori_relay_server.Handler.Effects.{report_status}
use sesori_relay_server.Handler.Phone.{
  phone_joined, phone_closed, observed_message, observe, observed_payload, to_bridge,
}
use sesori_relay_server.Notifications.{BridgeStatusPayload, NotifyError}
use sesori_relay_server.Protocol.Messages.{PolicyMessage, ObservedMessage}
use sesori_relay_server.World.Late.{Concerns, taken_over}
use sesori_relay_server.World.Late.Recipients.{}

-- The report names the user.
abbrev pub Names : Text → BridgeStatusPayload → Type 0
Names user_id p = p.user_id ≡ user_id

module _ (P : Connection → Type 0) (u : Text) where
  pub displace-Concerns :
      (o : Option Connection)
      → ((b : Connection) → o ≡ some b → P b)
      → All (Concerns P (Names u)) (displace o)
  unfolding displace
  displace-Concerns none h = tt
  displace-Concerns (some b) h = (h b refl, tt)

  pub taken_over-Concerns :
      (o : Option Connection)
      → ((b : Connection) → o ≡ some b → P b)
      → All (Concerns P (Names u)) (taken_over o)
  unfolding takeover
  taken_over-Concerns none h = tt
  taken_over-Concerns (some b) h = (h b refl, (h b refl, tt))

  pub when-Concerns :
      (yes_no : Bool) (p : BridgeStatusPayload)
      → Names u p
      → All (Concerns P (Names u)) (when yes_no (report_status p))
  when-Concerns true p e = (e, tt)
  when-Concerns false p e = tt

  pub status_reported-Concerns :
      (s : BridgeSession) (o : Option NotifyError)
      → P s.conn
      → All (Concerns P (Names u)) (status_reported s o)
  unfolding status_reported
  status_reported-Concerns s o p = ground arith

  pub phone_joined-Concerns :
      (phone : Connection) (o : Option Connection)
      → P phone
      → ((b : Connection) → o ≡ some b → P b)
      → All (Concerns P (Names u)) (phone_joined phone o)
  unfolding phone_joined write_control
  phone_joined-Concerns phone none p h = (p, tt)
  phone_joined-Concerns phone (some b) p h = (h b refl, (p, tt))

  pub phone_closed-Concerns :
      (phone : Connection) (o : Option Connection)
      → P phone
      → ((b : Connection) → o ≡ some b → P b)
      → All (Concerns P (Names u)) (phone_closed phone o)
  unfolding phone_closed write_control
  phone_closed-Concerns phone none p h = (p, tt)
  phone_closed-Concerns phone (some b) p h = (p, (h b refl, tt))

  pub to_phones-Concerns :
      (ps : List Connection) (payload : Text)
      → ((p : Connection) → Within p ps → P p)
      → All (Concerns P (Names u)) (to_phones ps payload)
  unfolding to_phones
  to_phones-Concerns [] payload h = tt
  to_phones-Concerns (p ∷ ps) payload h =
      (h p (inl refl), to_phones-Concerns ps payload (λ q w. h q (inr w)))

  pub to_phone-Concerns :
      (o : Option Connection) (payload : Text)
      → ((p : Connection) → o ≡ some p → P p)
      → All (Concerns P (Names u)) (to_phone o payload)
  unfolding to_phone
  to_phone-Concerns none payload h = tt
  to_phone-Concerns (some p) payload h = (h p refl, tt)

  pub to_bridge-Concerns :
      (o : Option Connection) (id : ℕ) (input : Text)
      → ((b : Connection) → o ≡ some b → P b)
      → All (Concerns P (Names u)) (to_bridge o id input)
  unfolding to_bridge
  to_bridge-Concerns none id input h = tt
  to_bridge-Concerns (some b) id input h = (h b refl, tt)

  pub policy_message-Concerns :
      (g : AccountGroup) (s : BridgeSession) (now : Text) (m : Option PolicyMessage)
      → s.user_id ≡ u
      → All (Concerns P (Names u)) (policy_message g s now m).1
  unfolding policy_message policy_update bridge_payload
  policy_message-Concerns g s now none e = tt
  policy_message-Concerns g s now (some m) e = ground arith

  pub observe-Concerns :
      (nb : Bool) (now device_id : Text) (o : Option Connection)
      → All (Concerns P (Names u)) (observe nb u now device_id o)
  unfolding observe observed_payload
  observe-Concerns nb now device_id none = tt
  observe-Concerns nb now device_id (some b) = ground arith

  pub observed_message-Concerns :
      (g : AccountGroup) (phone : Connection) (nb : Bool) (now : Text) (m : Option ObservedMessage)
      → All (Concerns P (Names u)) (observed_message g phone nb u now m)
  unfolding observed_message
  observed_message-Concerns g phone nb now none = tt
  observed_message-Concerns g phone nb now (some m) =
      ground (arith, observe-Concerns nb now m.device_id (bridge_for_phone g phone))
