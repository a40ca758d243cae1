-- ===== src/Handler/Routing.antt =====
-- internal/relay/handler.go: the binary frames that the read loops write.
use sesori_relay_server.Prelude.{
  ℕ, ◌/◌, ◌%◌, ◌<◌, ◌≡◌, refl, ap, ◌∙◌, inl, inr, true, Bool, arith, List, [], ◌∷◌, Option, none,
  some, Text, ℕ_discrete, ◌==◌, Bool-cases,
}
use sesori_relay_server.Prelude.Dict.{lookup, Entries-lookup}
use sesori_relay_server.AccountGroup.{
  Connection, AccountGroup, same, target, is_current_bridge, phones_targeting, phone_targeting,
  bridge_for_phone,
}
use sesori_relay_server.AccountGroup.Invariant.{IsValid, HasId}
use sesori_relay_server.AccountGroup.Routing.{
  Within, phone_targeting-bridge_for_phone, phones_targeting-phone_targeting,
}
use sesori_relay_server.Handler.Bridge.{
  BridgeSession, forward, to_phones, to_phone, bridge_message, get_u16, policy_message,
}
use sesori_relay_server.Handler.Effects.{
  Effect, notice, frame, close_now, take_over, close, cancel, report_status, report_control,
  Incoming, text, binary,
}
use sesori_relay_server.Handler.Phone.{phone_message, put_u16}
use sesori_relay_server.Protocol.Messages.{Json, PolicyMessage}

-- Every binary frame goes to a connection with the property.
abbrev pub FramesTo : (Connection → Type 0) → List Effect → Type 0
FramesTo P [] = Unit {0}
FramesTo P (frame c _ ∷ es) = P c × FramesTo P es
FramesTo P (notice _ ∷ es) = FramesTo P es
FramesTo P (close _ _ ∷ es) = FramesTo P es
FramesTo P (cancel _ ∷ es) = FramesTo P es
FramesTo P (close_now _ ∷ es) = FramesTo P es
FramesTo P (take_over _ ∷ es) = FramesTo P es
FramesTo P (report_status _ ∷ es) = FramesTo P es
FramesTo P (report_control _ ∷ es) = FramesTo P es

-- The phone is registered in the group, and the bridge is current and its target.
abbrev pub TalksTo : AccountGroup → Connection → Connection → Type 0
TalksTo g bridge phone =
    (lookup ℕ_discrete phone.conn_id g.phones ≡ some phone)
    × (is_current_bridge g bridge ≡ true)
    × (same (target g phone) (some bridge) ≡ true)

get_u16-put_u16 : (id : ℕ) → id < 65536 → get_u16 (id / 256) (id % 256) ≡ id
get_u16-put_u16 id h = omega arith

phone_targeting-TalksTo :
    (g : AccountGroup) (bridge phone : Connection) (id : ℕ)
    → IsValid g
    → phone_targeting g bridge id ≡ some phone
    → TalksTo g bridge phone
unfolding phone_targeting
phone_targeting-TalksTo g bridge phone id v h =
    let found : lookup ℕ_discrete id g.phones ≡ some phone = ground arith in
    let (here, _) = Entries-lookup ℕ_discrete HasId id phone g.phones v.phone_ids found in
    (ap (λ k. lookup ℕ_discrete k g.phones) here ∙ found, ground arith, ground arith)

to_phones-FramesTo :
    (P : Connection → Type 0) (ps : List Connection) (payload : Text)
    → ((p : Connection) → Within p ps → P p)
    → FramesTo P (to_phones ps payload)
unfolding to_phones
to_phones-FramesTo P [] payload h = tt
to_phones-FramesTo P (p ∷ ps) payload h =
    (h p (inl refl), to_phones-FramesTo P ps payload (λ q w. h q (inr w)))

to_phone-FramesTo :
    (P : Connection → Type 0) (o : Option Connection) (payload : Text)
    → ((p : Connection) → o ≡ some p → P p)
    → FramesTo P (to_phone o payload)
unfolding to_phone
to_phone-FramesTo P none payload h = tt
to_phone-FramesTo P (some p) payload h = (h p refl, tt)

forward-FramesTo :
    (g : AccountGroup) (bridge : Connection) (id : ℕ) (payload : Text)
    → IsValid g
    → FramesTo (TalksTo g bridge) (forward g bridge id payload)
unfolding forward
forward-FramesTo g bridge id payload v = elim (Bool-cases (id == 0)) [
  | inl broadcast ↦
      rw (broadcast, forward)
        (to_phones-FramesTo (TalksTo g bridge) (phones_targeting g bridge) payload (λ p w.
          phone_targeting-TalksTo g bridge p p.conn_id v
            ((phones_targeting-phone_targeting g bridge p v).0 w)))
  | inr unicast ↦
      rw (unicast, forward)
        (to_phone-FramesTo (TalksTo g bridge) (phone_targeting g bridge id) payload
          (λ p e. phone_targeting-TalksTo g bridge p id v e))
]

-- A policy message sends no frame.
policy_message-FramesTo :
    (P : Connection → Type 0) (g : AccountGroup) (s : BridgeSession) (now : Text)
    (m : Option PolicyMessage)
    → FramesTo P (policy_message g s now m).1
unfolding policy_message
policy_message-FramesTo P g s now none = tt
policy_message-FramesTo P g s now (some m) = ground arith

-- In a valid group, whatever message a bridge sends, text or binary, broadcast or addressed, each
-- binary frame that its read loop writes goes to a registered phone whose target is this bridge
-- connection, and this connection is the current one of its bridge id.
pub bridge_message-FramesTo :
    (json : Json) (g : AccountGroup) (s : BridgeSession) (now : Text) (m : Incoming)
    → IsValid g
    → FramesTo (TalksTo g s.conn) (bridge_message json g s now m).1
unfolding bridge_message
bridge_message-FramesTo json g s now (text input) v =
    policy_message-FramesTo (TalksTo g s.conn) g s now (json.policy input)
bridge_message-FramesTo json g s now (binary []) v = tt
bridge_message-FramesTo json g s now (binary (_ ∷ [])) v = tt
bridge_message-FramesTo json g s now (binary (hi ∷ lo ∷ payload)) v =
    forward-FramesTo g s.conn (get_u16 hi lo) payload v

-- In a valid group, let a phone be registered and talk to the bridge of a session. A binary message
-- of the phone is written to this bridge alone, with the phone's connection id in front; and when
-- the bridge sends the same bytes back, they are written to this phone alone, without the
-- connection id and otherwise unchanged.
pub bridge_message-phone_message :
    (json : Json) (g : AccountGroup) (phone : Connection) (s : BridgeSession)
    (has_notifications : Bool) (user_id now input : Text)
    → IsValid g
    → lookup ℕ_discrete phone.conn_id g.phones ≡ some phone
    → bridge_for_phone g phone ≡ some s.conn
    → (phone_message json g phone has_notifications user_id now (binary input)
        ≡ frame s.conn (put_u16 phone.conn_id input) ∷ [])
      × ((bridge_message json g s now (binary (put_u16 phone.conn_id input))).1
          ≡ frame phone input ∷ [])
unfolding phone_message bridge_message put_u16
bridge_message-phone_message json g phone s nb user_id now input v here sends =
    let (_, range) =
      Entries-lookup ℕ_discrete HasId phone.conn_id phone g.phones v.phone_ids here in
    (
      ground arith,
      ground (
        arith,
        get_u16-put_u16 phone.conn_id range.1,
        (phone_targeting-bridge_for_phone g phone s.conn v here).0 sends,
      ),
    )
