-- ===== src/World/Isolation.antt =====
-- internal/relay/handler.go: where the read loops of the handlers send, under every interleaving.
use sesori_relay_server.Prelude.{
  ℕ, ◌≡◌, ◌∙◌, refl, sym, ap, subst, arith, List, [], ◌∷◌, Option, none, some, Text, Bool,
}
use sesori_relay_server.AccountGroup.{Connection, AccountGroup, bridge_for_phone, target}
use sesori_relay_server.AccountGroup.Routing.{target-lookup}
use sesori_relay_server.GroupManager.{group_at}
use sesori_relay_server.GroupManager.Invariant.{user_of}
use sesori_relay_server.Handler.Bridge.{BridgeSession, bridge_message}
use sesori_relay_server.Handler.Effects.{
  Effect, notice, frame, close_now, take_over, close, cancel, report_status, report_control,
  Incoming, text, binary,
}
use sesori_relay_server.Handler.Phone.{phone_message, observe, to_bridge, observed_message}
use sesori_relay_server.Handler.Routing.{FramesTo, TalksTo, bridge_message-FramesTo}
use sesori_relay_server.Protocol.Messages.{Json, ObservedMessage}
use sesori_relay_server.World.{Handler, World, bridge_serving, phone_serving, Reach, At}
use sesori_relay_server.World.Groups.{At-stage, Reach-Consistent, Consistent}
use sesori_relay_server.World.Shared.{stages, grip}

-- The handler of the connection serves it as a phone, or as a bridge, of the user in the group.
abbrev pub ServesPhone : World → Text → ℕ → Connection → Type 0
ServesPhone w user_id ref c = stages w.handlers c.ref ≡ some (phone_serving user_id ref c)

abbrev pub ServesBridge : World → Text → ℕ → Connection → Type 0
ServesBridge w user_id ref c = stages w.handlers c.ref ≡ some (bridge_serving user_id ref c)

FramesTo-weaken :
    (P Q : Connection → Type 0) (es : List Effect)
    → ((c : Connection) → P c → Q c)
    → FramesTo P es
    → FramesTo Q es
FramesTo-weaken P Q [] h f = tt
FramesTo-weaken P Q (frame c _ ∷ es) h f = (h c f.0, FramesTo-weaken P Q es h f.1)
FramesTo-weaken P Q (notice _ ∷ es) h f = FramesTo-weaken P Q es h f
FramesTo-weaken P Q (close _ _ ∷ es) h f = FramesTo-weaken P Q es h f
FramesTo-weaken P Q (cancel _ ∷ es) h f = FramesTo-weaken P Q es h f
FramesTo-weaken P Q (close_now _ ∷ es) h f = FramesTo-weaken P Q es h f
FramesTo-weaken P Q (take_over _ ∷ es) h f = FramesTo-weaken P Q es h f
FramesTo-weaken P Q (report_status _ ∷ es) h f = FramesTo-weaken P Q es h f
FramesTo-weaken P Q (report_control _ ∷ es) h f = FramesTo-weaken P Q es h f

observe-FramesTo :
    (P : Connection → Type 0) (nb : Bool) (user_id now device_id : Text) (o : Option Connection)
    → FramesTo P (observe nb user_id now device_id o)
unfolding observe
observe-FramesTo P nb user_id now device_id none = tt
observe-FramesTo P nb user_id now device_id (some b) = ground arith

-- An observed message sends no frame.
observed_message-FramesTo :
    (P : Connection → Type 0) (g : AccountGroup) (phone : Connection) (nb : Bool)
    (user_id now : Text) (m : Option ObservedMessage)
    → FramesTo P (observed_message g phone nb user_id now m)
unfolding observed_message
observed_message-FramesTo P g phone nb user_id now none = tt
observed_message-FramesTo P g phone nb user_id now (some m) =
    ground (arith, observe-FramesTo P nb user_id now m.device_id (bridge_for_phone g phone))

to_bridge-FramesTo :
    (P : Connection → Type 0) (o : Option Connection) (id : ℕ) (input : Text)
    → ((b : Connection) → o ≡ some b → P b)
    → FramesTo P (to_bridge o id input)
unfolding to_bridge
to_bridge-FramesTo P none id input h = tt
to_bridge-FramesTo P (some b) id input h = (h b refl, tt)

-- The group that a handler holds is one of its user.
pub held_user :
    (w : World) (i : ℕ) (user_id : Text) (ref : ℕ) (g : AccountGroup)
    → Consistent w
    → grip (stages w.handlers i) ≡ some (user_id, ref)
    → group_at w.manager ref ≡ some g
    → g.user_id ≡ user_id
held_user w i user_id ref g c holds found =
    let e : some g.user_id ≡ some user_id = ap user_of (sym found) ∙ c.holds i user_id ref holds in
    ground arith

-- In every reachable world, each binary frame that the handler of a bridge writes for a message,
-- text or binary, broadcast or addressed, goes to a connection that its own handler serves as a
-- phone of the same user in the same group.
pub bridge_frames_isolated :
    (limit rooms : ℕ) (w : World) (i : ℕ) (h : Handler) (user_id : Text) (ref : ℕ)
    (g : AccountGroup) (json : Json) (s : BridgeSession) (now : Text) (m : Incoming)
    → Reach limit rooms w
    → At w i h
    → h.stage ≡ bridge_serving user_id ref s.conn
    → group_at w.manager ref ≡ some g
    → FramesTo (ServesPhone w user_id ref) (bridge_message json g s now m).1
bridge_frames_isolated limit rooms w i h user_id ref g json s now m r at e found =
    let c = Reach-Consistent limit rooms r in
    let stage = At-stage w i h (bridge_serving user_id ref s.conn) at e in
    let same_user = held_user w i user_id ref g c (ap grip stage) found in
    FramesTo-weaken (TalksTo g s.conn) (ServesPhone w user_id ref) (bridge_message json g s now m).1
      (λ p t. subst (λ u. ServesPhone w u ref p) same_user (c.phones ref g p.conn_id p found t.0))
      (bridge_message-FramesTo json g s now m (c.well_formed.valid ref g found))

bridge_for_phone-target :
    (g : AccountGroup) (phone b : Connection)
    → bridge_for_phone g phone ≡ some b
    → target g phone ≡ some b
unfolding bridge_for_phone
bridge_for_phone-target g phone b e = ground arith

-- In every reachable world, each binary frame that the handler of a phone writes for a message,
-- text or binary, goes to a connection that its own handler serves as a bridge of the same user in
-- the same group.
pub phone_frames_isolated :
    (limit rooms : ℕ) (w : World) (i : ℕ) (h : Handler) (user_id : Text) (ref : ℕ)
    (g : AccountGroup) (json : Json) (phone : Connection) (has_notifications : Bool) (now : Text)
    (m : Incoming)
    → Reach limit rooms w
    → At w i h
    → h.stage ≡ phone_serving user_id ref phone
    → group_at w.manager ref ≡ some g
    → FramesTo
        (ServesBridge w user_id ref)
        (phone_message json g phone has_notifications user_id now m)
unfolding phone_message
phone_frames_isolated limit rooms w i h user_id ref g json phone nb now (text input) r at e found =
    observed_message-FramesTo (ServesBridge w user_id ref) g phone nb user_id now
      (json.observed input)
phone_frames_isolated limit rooms w i h user_id ref g json phone nb now (binary input) r at e
      found =
    let c = Reach-Consistent limit rooms r in
    let stage = At-stage w i h (phone_serving user_id ref phone) at e in
    let same_user = held_user w i user_id ref g c (ap grip stage) found in
    to_bridge-FramesTo (ServesBridge w user_id ref) (bridge_for_phone g phone) phone.conn_id input
      (λ b sends.
        subst (λ u. ServesBridge w u ref b) same_user
          (c.bridges ref g b.bridge_id b found (
            target-lookup g phone b (c.well_formed.valid ref g found)
              (bridge_for_phone-target g phone b sends))))
