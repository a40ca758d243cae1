-- ===== src/AccountGroup/Routing.antt =====
-- internal/relay/account_group.go: the lookups that the read loops make for every frame.
use sesori_relay_server.Prelude.{
  ℕ, ◌≡◌, ◌≢◌, ◌↔◌, refl, true, ◌⊎◌, inl, inr, arith, List, [], ◌∷◌, none, some, Text-discrete,
  ℕ_discrete, Bool-cases, ==_iff,
}
use sesori_relay_server.Prelude.Dict.{
  Dict, Distinct, Entries, lookup, lookup-insert, Entries-lookup, values,
}
use sesori_relay_server.AccountGroup.{
  Connection, AccountGroup, same, change_bridges, add_bridge, target, is_current_bridge,
  phones_targeting, targeting, phone_targeting, bridge_for_phone, is_empty_text,
}
use sesori_relay_server.AccountGroup.Default.{HasKey, default_bridge-IsLatest}
use sesori_relay_server.AccountGroup.Invariant.{IsValid, HasId}

pub same_self : (b : Connection) → same (some b) (some b) ≡ true
unfolding same
same_self b = (==_iff b.ref b.ref).1 refl

-- The target of a phone is registered under its own id.
pub target-lookup :
    (g : AccountGroup) (phone b : Connection)
    → IsValid g
    → target g phone ≡ some b
    → lookup Text-discrete b.bridge_id g.bridges ≡ some b
unfolding target
target-lookup g phone b v e = elim (Bool-cases (is_empty_text phone.bridge_id)) [
  | inl unpinned ↦ elim (default_bridge-IsLatest g v.distinct_bridges v.bridge_keys) [
    | inl (_, nothing) ↦ absurd (ground arith)
    | inr (r, found, latest) ↦ ground (arith, latest.0)
  ]
  | inr pinned ↦
      let found : lookup Text-discrete phone.bridge_id g.bridges ≡ some b = ground arith in
      ground
        (arith, Entries-lookup Text-discrete HasKey phone.bridge_id b g.bridges v.bridge_keys found)
]

pub target-is_current :
    (g : AccountGroup) (phone b : Connection)
    → IsValid g
    → target g phone ≡ some b
    → is_current_bridge g b ≡ true
unfolding is_current_bridge
target-is_current g phone b v e = rw (target-lookup g phone b v e) (same_self b)

-- For a phone that is registered under its connection id in a valid group: if BridgeForPhone
-- returns a bridge for it, then PhoneTargeting returns the phone for this bridge and the phone's
-- id; and if PhoneTargeting returns the phone for a bridge and that id, then BridgeForPhone returns
-- the same connection.
pub phone_targeting-bridge_for_phone :
    (g : AccountGroup) (phone bridge : Connection)
    → IsValid g
    → lookup ℕ_discrete phone.conn_id g.phones ≡ some phone
    → (bridge_for_phone g phone ≡ some bridge → phone_targeting g bridge phone.conn_id ≡ some phone)
      × (phone_targeting g bridge phone.conn_id ≡ some phone
          → same (bridge_for_phone g phone) (some bridge) ≡ true)
unfolding phone_targeting bridge_for_phone
phone_targeting-bridge_for_phone g phone bridge v e = (
  λ sends. ground (arith, same_self phone, same_self bridge, target-is_current g phone bridge v),
  λ reaches. ground (arith, same_self phone),
)

-- When AddBridge puts a bridge connection in the place of another connection of the same bridge id,
-- the displaced connection reaches no phone in the new group: PhonesTargeting returns none for it,
-- and PhoneTargeting returns none for it whatever the connection id.
pub displaced_reaches_none :
    (g : AccountGroup) (old bridge : Connection)
    → lookup Text-discrete bridge.bridge_id g.bridges ≡ some old
    → old.bridge_id ≡ bridge.bridge_id
    → old.ref ≢ bridge.ref
    → let g' = (add_bridge g bridge).0 in
      (phones_targeting g' old ≡ []) × ((id : ℕ) → phone_targeting g' old id ≡ none)
unfolding add_bridge change_bridges phones_targeting phone_targeting is_current_bridge same
displaced_reaches_none g old bridge e k ne = (
  ground (arith, lookup-insert Text-discrete bridge.bridge_id old.bridge_id bridge g.bridges),
  λ id. ground (arith, lookup-insert Text-discrete bridge.bridge_id old.bridge_id bridge g.bridges),
)

-- The connection is in the list.
abbrev pub Within : Connection → List Connection → Type 0
Within p [] = ⊥
Within p (q ∷ qs) = (q ≡ p) ⊎ Within p qs

targeting-Within :
    (g : AccountGroup) (bridge p : Connection) (ps : List Connection)
    → Within p (targeting g bridge ps) ↔ (Within p ps × (same (target g p) (some bridge) ≡ true))
unfolding targeting
targeting-Within g bridge p [] = (λ w. elim w [ ], λ (w, _). elim w [ ])
targeting-Within g bridge p (q ∷ qs) = (
  λ w. ground (arith, targeting-Within g bridge p qs),
  λ w. ground (arith, targeting-Within g bridge p qs),
)

pub Within-lookup :
    (p : Connection) (m : Dict ℕ Connection)
    → Distinct ℕ_discrete m
    → Entries ℕ_discrete HasId m
    → Within p (values m) ↔ (lookup ℕ_discrete p.conn_id m ≡ some p)
unfolding lookup
Within-lookup p [] d h = (λ w. elim w [ ], λ e. cc)
Within-lookup p ((k, q) ∷ m) d h =
    (λ w. ground (arith, Within-lookup p m d.1 h.1), λ e. ground (arith, Within-lookup p m d.1 h.1))

-- In a valid group, a phone is among PhonesTargeting of a bridge exactly when PhoneTargeting
-- returns it for this bridge and the phone's own connection id.
pub phones_targeting-phone_targeting :
    (g : AccountGroup) (bridge p : Connection)
    → IsValid g
    → Within p (phones_targeting g bridge) ↔ (phone_targeting g bridge p.conn_id ≡ some p)
unfolding phones_targeting phone_targeting
phones_targeting-phone_targeting g bridge p v =
    let registered = Within-lookup p g.phones v.distinct_phones v.phone_ids in
    (
      λ w. ground (arith, registered, targeting-Within g bridge p (values g.phones)),
      λ e. ground (arith, registered, targeting-Within g bridge p (values g.phones)),
    )

-- No phone is reached by two bridge connections.
pub phone_targeting_unique :
    (g : AccountGroup) (a b p q : Connection) (id : ℕ)
    → phone_targeting g a id ≡ some p
    → phone_targeting g b id ≡ some q
    → (p ≡ q) × (a.ref ≡ b.ref)
unfolding phone_targeting same
phone_targeting_unique g a b p q id h k = (ground arith, ground arith)
