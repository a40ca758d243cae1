-- ===== src/Announce/Views.antt =====
-- What a peer learns from the notices that are written to it: a phone its target bridge, a bridge
-- whether the phone with a given connection id talks to it.
use sesori_relay_server.Prelude.{
  ℕ, ◌≡◌, refl, Bool, true, false, List, [], ◌∷◌, ◌++◌, Option, none, some, Text, ◌==◌,
  if◌then◌else◌,
}
use sesori_relay_server.AccountGroup.{Connection}
use sesori_relay_server.Announce.{
  Control, Notice, phone_connected, phone_disconnected, bridge_connected, bridge_disconnected,
  bridge_presence,
}

-- The target bridge that a phone believes in after a message.
abbrev pub seen : Control → Option Text → Option Text
seen (bridge_connected id) v = some id
seen (bridge_disconnected id) v = none
seen (phone_connected _) v = v
seen (phone_disconnected _) v = v
seen (bridge_presence _ _) v = v

-- The phone at `ref` reads the notices that are written to it.
unfoldable pub phone_view : ℕ → Option Text → List Notice → Option Text
phone_view ref v [] = v
phone_view ref v (n ∷ ns) = phone_view ref (if n.to.ref == ref then seen n.message v else v) ns

-- Whether a bridge believes, after a message, that the phone `id` talks to it.
abbrev pub linked : ℕ → Control → Bool → Bool
linked id (phone_connected j) v = if j == id then true else v
linked id (phone_disconnected j) v = if j == id then false else v
linked id (bridge_connected _) v = v
linked id (bridge_disconnected _) v = v
linked id (bridge_presence _ _) v = v

unfoldable pub bridge_view : ℕ → ℕ → Bool → List Notice → Bool
bridge_view ref id v [] = v
bridge_view ref id v (n ∷ ns) =
    bridge_view ref id (if n.to.ref == ref then linked id n.message v else v) ns

pub phone_view-append :
    (ref : ℕ) (v : Option Text) (xs ys : List Notice)
    → phone_view ref v (xs ++ ys) ≡ phone_view ref (phone_view ref v xs) ys
unfolding phone_view
phone_view-append ref v [] ys = refl
phone_view-append ref v (n ∷ ns) ys =
    phone_view-append ref (if n.to.ref == ref then seen n.message v else v) ns ys

pub bridge_view-append :
    (ref id : ℕ) (v : Bool) (xs ys : List Notice)
    → bridge_view ref id v (xs ++ ys) ≡ bridge_view ref id (bridge_view ref id v xs) ys
unfolding bridge_view
bridge_view-append ref id v [] ys = refl
bridge_view-append ref id v (n ∷ ns) ys =
    bridge_view-append ref id (if n.to.ref == ref then linked id n.message v else v) ns ys

-- The id of a bridge that may be nil.
abbrev pub name : Option Connection → Option Text
name none = none
name (some b) = some b.bridge_id
