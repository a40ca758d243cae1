-- ===== src/Handler/Lifecycle/Phones.antt =====
-- internal/relay/handler.go: the notices when a phone comes and goes.
use sesori_relay_server.Prelude.{
  ℕ, ◌<◌, ◌≡◌, ◌≢◌, refl, sym, ◌∙◌, inl, inr, arith, true, false, List, Option, none, some, Text,
  Text-discrete, ℕ_discrete, length,
}
use sesori_relay_server.Prelude.Dict.{lookup, lookup-insert, lookup-delete_self}
use sesori_relay_server.AccountGroup.{
  Connection, AccountGroup, Registered, max_phones_per_account, same, target, default_bridge,
  remove_phone,
}
use sesori_relay_server.AccountGroup.Invariant.{IsValid, add_phone_total, with_phone}
use sesori_relay_server.AccountGroup.Routing.{target-lookup}
use sesori_relay_server.Announce.{write_control}
use sesori_relay_server.Announce.Views.{phone_view, bridge_view, name}
use sesori_relay_server.Handler.Effects.{Effect}
use sesori_relay_server.Handler.Lifecycle.{open_phone, close_phone, opened_phone, sent}
use sesori_relay_server.Handler.Phone.{phone_joined, phone_opened, phone_closed}

-- The notices of a joining phone with the target `t`: the phone learns the target.
pub phone_joined-phone_view :
    (phone : Connection) (t : Option Connection) (v : Option Text)
    → ((a : Connection) → t ≡ some a → a.ref ≢ phone.ref)
    → phone_view phone.ref v (sent (phone_joined phone t)) ≡ name t
unfolding phone_joined sent phone_view write_control
phone_joined-phone_view phone none v h = ground arith
phone_joined-phone_view phone (some a) v h = ground (arith, h a refl)

-- No other phone learns anything.
pub phone_joined-phone_view_ne :
    (phone q : Connection) (t : Option Connection) (w : Option Text)
    → q.ref ≢ phone.ref
    → phone_view q.ref w (sent (phone_joined phone t)) ≡ w
unfolding phone_joined sent phone_view write_control
phone_joined-phone_view_ne phone q none w k = ground arith
phone_joined-phone_view_ne phone q (some a) w k = ground arith

-- Each bridge learns whether it is the target.
pub phone_joined-bridge_view :
    (phone b : Connection) (t : Option Connection)
    → b.ref ≢ phone.ref
    → bridge_view b.ref phone.conn_id false (sent (phone_joined phone t)) ≡ same t (some b)
unfolding phone_joined sent bridge_view write_control same
phone_joined-bridge_view phone b none l = ground arith
phone_joined-bridge_view phone b (some a) l = ground arith

-- Adding a phone changes no target.
pub target-with_phone :
    (g : AccountGroup) (phone q : Connection) (id : ℕ)
    → target (with_phone g phone id) q ≡ target g q
unfolding target default_bridge
target-with_phone g phone q id = refl

-- In a valid group below its maximal number of phones, let a phone open whose connection is another
-- object than the group's bridges. Then the opening returns, and the phone is registered under its
-- new id; whatever it knew before, its notices tell it the id of its target (or that it has none);
-- every registered bridge that took the new id for unused knows whether the phone talks to it; and
-- what any other connection knows of its target, and this target itself, stay.
pub open_phone-views :
    (g : AccountGroup) (phone : Connection) (v : Option Text)
    → IsValid g
    → length g.phones < max_phones_per_account
    → ((a : Connection) → lookup Text-discrete a.bridge_id g.bridges ≡ some a → a.ref ≢ phone.ref)
    → (g' : AccountGroup) × (added : Registered) × (es : List Effect) × (open_phone g phone
        ≡ some (g', added, es))
      × (lookup ℕ_discrete added.phone.conn_id g'.phones ≡ some added.phone)
      × (phone_view phone.ref v (sent es) ≡ name (target g' added.phone))
      × ((b : Connection)
          → lookup Text-discrete b.bridge_id g.bridges ≡ some b
          → bridge_view b.ref added.phone.conn_id false (sent es)
            ≡ same (target g' added.phone) (some b))
      × ((q : Connection) (w : Option Text)
          → q.ref ≢ phone.ref
          → (phone_view q.ref w (sent es) ≡ w) × (target g' q ≡ target g q))
unfolding open_phone phone_opened opened_phone
open_phone-views g phone v valid room fresh = elim (add_phone_total g phone valid) [
  | inl (full, _) ↦ absurd (omega arith)
  | inr (id, _, range, free, added) ↦
      let phone' : Connection = record phone { conn_id = id } in
      let g' = with_phone g phone id in
      let t = target g' phone' in
      let same_target = target-with_phone g phone phone' id in
      (
        g',
        record { phone = phone'; bridge = t; is_ok = true },
        phone_joined phone' t,
        rw (added, open_phone) refl,
        ground (arith, lookup-insert ℕ_discrete id id phone' g.phones),
        phone_joined-phone_view phone' t v
            (λ a e. fresh a (target-lookup g phone' a valid (sym same_target ∙ e))),
        λ b here. phone_joined-bridge_view phone' b t (fresh b here),
        λ q w other.
            (phone_joined-phone_view_ne phone' q t w other, target-with_phone g phone q id),
      )
]

-- The notice of a leaving phone with the target `t`: the target learns that the phone is gone.
pub phone_closed-view :
    (phone b : Connection) (t : Option Connection)
    → bridge_view b.ref phone.conn_id (same t (some b)) (sent (phone_closed phone t)) ≡ false
unfolding phone_closed sent bridge_view write_control same
phone_closed-view phone b none = ground arith
phone_closed-view phone b (some a) = ground arith

-- When a phone leaves a valid group, its connection id is free again, a bridge that knew whether
-- the phone talked to it knows from the notices that it does not, and no phone's target changes.
pub close_phone-view :
    (g : AccountGroup) (phone b q : Connection)
    → IsValid g
    → let (g', es) = close_phone g phone in
      (bridge_view b.ref phone.conn_id (same (target g phone) (some b)) (sent es) ≡ false)
      × (lookup ℕ_discrete phone.conn_id g'.phones ≡ none)
      × (target g' q ≡ target g q)
unfolding close_phone remove_phone target default_bridge
close_phone-view g phone b q valid = (
  phone_closed-view phone b (target g phone),
  lookup-delete_self ℕ_discrete phone.conn_id g.phones valid.distinct_phones,
  refl,
)
