-- ===== src/World/Late/Starts.antt =====
-- internal/relay/handler.go: whom the effects that a handler starts are about, in a valid group whose
-- bridges and phones all have a property.
use sesori_relay_server.Prelude.{
  ℕ, ◌≡◌, ap, subst, inl, inr, arith, true, false, Bool, [], ◌∷◌, ◌++◌, none, some, Text,
  Text-discrete, ℕ_discrete, All, Bool-cases, ◌==◌, not,
}
use sesori_relay_server.Prelude.Dict.{lookup, lookup-insert}
use sesori_relay_server.AccountGroup.{
  Connection, AccountGroup, Registered, target, changes_of, targets_of, all_phones, add_phone,
  remove_phone, bridge_for_phone, phones_targeting, phone_targeting,
}
use sesori_relay_server.AccountGroup.Invariant.{
  IsValid, add_bridge-IsValid, remove_bridge-IsValid, remove_phone-IsValid, add_phone_total,
  with_phone, with_phone-IsValid,
}
use sesori_relay_server.AccountGroup.Methods.{
  add_bridge_cases, remove_bridge_cases, with_bridge, without_bridge,
}
use sesori_relay_server.AccountGroup.Routing.{
  Within, Within-lookup, target-lookup, phones_targeting-phone_targeting,
}
use sesori_relay_server.Announce.{announce_target_changes, announce_presence}
use sesori_relay_server.Handler.Bridge.{
  BridgeSession, bridge_opened, bridge_closed, status_reported, bridge_payload, bridge_message,
  forward, get_u16,
}
use sesori_relay_server.Handler.Effects.{notices, Incoming, text, binary}
use sesori_relay_server.Handler.Phone.{phone_opened, phone_closed, phone_message}
use sesori_relay_server.Notifications.{bridge_status_connected, bridge_status_disconnected}
use sesori_relay_server.Protocol.Messages.{Json}
use sesori_relay_server.World.Late.{Concerns, Circumstances, bridge_opening, bridge_closing}
use sesori_relay_server.World.Late.Pieces.{
  Names, displace-Concerns, taken_over-Concerns, when-Concerns, status_reported-Concerns,
  phone_joined-Concerns, phone_closed-Concerns, to_phones-Concerns, to_phone-Concerns,
  to_bridge-Concerns, policy_message-Concerns, observed_message-Concerns,
}
use sesori_relay_server.World.Late.Recipients.{
  All-append, All-if, notices-Concerns, presence-to, changes-to,
}
use sesori_relay_server.World.Told.Changes.{still_there}

module _ (P : Connection → Type 0) (u : Text) (g : AccountGroup) (v : IsValid g)
    (bridges : (k : Text) (b : Connection) → lookup Text-discrete k g.bridges ≡ some b → P b)
    (phones : (k : ℕ) (p : Connection) → lookup ℕ_discrete k g.phones ≡ some p → P p) where
  targets : (q b : Connection) → target g q ≡ some b → P b
  targets q b e = bridges b.bridge_id b (target-lookup g q b v e)

  members : (p : Connection) → Within p (all_phones g) → P p
  unfolding all_phones
  members p w = phones p.conn_id p ((Within-lookup p g.phones v.distinct_phones v.phone_ids).0 w)

  pub presence-Concerns :
      (bridge_id : Text) (online : Bool)
      → All (Concerns P (Names u)) (notices (announce_presence (all_phones g) bridge_id online))
  presence-Concerns bridge_id online =
      notices-Concerns P (Names u) (announce_presence (all_phones g) bridge_id online)
        (presence-to P (all_phones g) bridge_id online members)

  with_bridge-targets :
      (c : Connection)
      → P c
      → IsValid (with_bridge g c)
      → (q b : Connection) → target (with_bridge g c) q ≡ some b
      → P b
  with_bridge-targets c p valid q b e =
      let there = target-lookup (with_bridge g c) q b valid e in
      let is = lookup-insert Text-discrete c.bridge_id b.bridge_id c g.bridges in
      elim (Text-discrete b.bridge_id c.bridge_id) [
        | yes same_id ↦ subst P (ground arith) p
        | no other ↦ bridges b.bridge_id b (ground arith)
      ]

  announced :
      (c : Connection)
      → P c
      → IsValid (with_bridge g c)
      → All (Concerns P (Names u)) (
          notices
            (announce_target_changes (changes_of (with_bridge g c) (targets_of g (all_phones g)))))
  announced c p valid = notices-Concerns P (Names u) _ (
      changes-to P g (with_bridge g c) targets (with_bridge-targets c p valid) (all_phones g)
        members)

  pub bridge_opening-Concerns :
      (s : BridgeSession) (x : Circumstances)
      → P s.conn
      → s.user_id ≡ u
      → All (Concerns P (Names u)) (bridge_opening g s x)
  unfolding bridge_opening bridge_opened announce_presence bridge_payload
  bridge_opening-Concerns s x p e = elim (add_bridge_cases g s.conn) [
    | inl (_, _, refused) ↦ rw (ap (λ r. r.1) refused) (p, (p, tt))
    | inr (_, added) ↦
        let E = Concerns P (Names u) in
        let valid = subst (λ r. IsValid r.0) added (add_bridge-IsValid g s.conn v) in
        let o = lookup Text-discrete s.conn.bridge_id g.bridges in
        rw (ap (λ r. r.1) added) (
          All-append E _ _
            (All-append E _ _
              (displace-Concerns P u o (λ b there. bridges s.conn.bridge_id b there))
              (All-append E _ _ (announced s.conn p valid) (
                when-Concerns P u s.has_notifications
                  (bridge_payload s bridge_status_connected x.now [] s.policy) e)))
            (All-append E _ _
              (taken_over-Concerns P u o (λ b there. bridges s.conn.bridge_id b there))
              (All-if E s.has_notifications (status_reported s x.reported)
                (status_reported-Concerns P u s x.reported p))))
  ]

  unannounced : All (Concerns P (Names u)) (notices (announce_target_changes []) ++ [])
  unfolding announce_target_changes
  unannounced = tt

  without_bridge-targets :
      (c : Connection)
      → IsValid (without_bridge g c)
      → (q b : Connection) → target (without_bridge g c) q ≡ some b
      → P b
  without_bridge-targets c valid q b e =
      bridges b.bridge_id b (still_there g b c v (target-lookup (without_bridge g c) q b valid e))

  withdrawn :
      (c : Connection)
      → IsValid (without_bridge g c)
      → All (Concerns P (Names u)) (
          notices (
            announce_target_changes
              (changes_of (without_bridge g c) (targets_of g (all_phones g)))))
  withdrawn c valid = notices-Concerns P (Names u) _ (
      changes-to P g (without_bridge g c) targets (without_bridge-targets c valid) (all_phones g)
        members)

  pub bridge_closing-Concerns :
      (s : BridgeSession) (x : Circumstances)
      → P s.conn
      → s.user_id ≡ u
      → All (Concerns P (Names u)) (bridge_closing g s x)
  unfolding bridge_closing bridge_closed announce_presence bridge_payload
  bridge_closing-Concerns s x p e = elim (remove_bridge_cases g s.conn) [
    | inl (_, stale) ↦ rw stale (p, unannounced)
    | inr (_, removed) ↦
        let E = Concerns P (Names u) in
        let valid = subst (λ r. IsValid r.0) removed (remove_bridge-IsValid g s.conn v) in
        rw removed (
          p,
          All-append E _ _ (withdrawn s.conn valid) (
              All-if E (not x.live) _ (
                when-Concerns P u s.has_notifications
                  (bridge_payload s bridge_status_disconnected x.now [] s.disconnect_policy) e)),
        )
  ]

  pub phone_opened-Concerns :
      (phone : Connection) (r : AccountGroup × Registered)
      → ((id : ℕ) → P (record phone { conn_id = id }))
      → P phone
      → add_phone g phone ≡ some r
      → All (Concerns P (Names u)) (phone_opened r.1)
  unfolding phone_opened
  phone_opened-Concerns phone r at p e = elim (add_phone_total g phone v) [
    | inl (full, refused) ↦
        let is : (g, record { phone = phone; bridge = none; is_ok = false }) ≡ r = ground arith in
        subst (λ x. All (Concerns P (Names u)) (phone_opened x.1)) is (p, (p, tt))
    | inr (id, room, range, free, added) ↦
        let phone' : Connection = record phone { conn_id = id } in
        let g' = with_phone g phone id in
        let a : Registered = record { phone = phone'; bridge = target g' phone'; is_ok = true } in
        let is : (g', a) ≡ r = ground arith in
        let valid = with_phone-IsValid g phone id v room range free in
        subst (λ x. All (Concerns P (Names u)) (phone_opened x.1)) is
          (phone_joined-Concerns P u phone' (target g' phone') (at id)
            (λ b there. bridges b.bridge_id b (target-lookup g' phone' b valid there)))
  ]

  pub phone_closed-target :
      (phone : Connection)
      → P phone
      → All (Concerns P (Names u)) (phone_closed phone (remove_phone g phone).1)
  unfolding remove_phone
  phone_closed-target phone p = phone_closed-Concerns P u phone (remove_phone g phone).1 p (λ b e.
      bridges b.bridge_id b
        (target-lookup (remove_phone g phone).0 phone b (remove_phone-IsValid g phone v) e))

  reached : (bridge p : Connection) (k : ℕ) → phone_targeting g bridge k ≡ some p → P p
  unfolding phone_targeting
  reached bridge p k e = phones k p (ground arith)

  forward-Concerns :
      (bridge : Connection) (id : ℕ) (payload : Text)
      → All (Concerns P (Names u)) (forward g bridge id payload)
  unfolding forward
  forward-Concerns bridge id payload = elim (Bool-cases (id == 0)) [
    | inl broadcast ↦
        rw (broadcast, forward)
          (to_phones-Concerns P u (phones_targeting g bridge) payload (λ p w.
            reached bridge p p.conn_id ((phones_targeting-phone_targeting g bridge p v).0 w)))
    | inr unicast ↦
        rw (unicast, forward)
          (to_phone-Concerns P u (phone_targeting g bridge id) payload
            (λ p e. reached bridge p id e))
  ]

  pub bridge_message-Concerns :
      (json : Json) (s : BridgeSession) (now : Text) (m : Incoming)
      → s.user_id ≡ u
      → All (Concerns P (Names u)) (bridge_message json g s now m).1
  unfolding bridge_message
  bridge_message-Concerns json s now (text input) e =
      policy_message-Concerns P u g s now (json.policy input) e
  bridge_message-Concerns json s now (binary []) e = tt
  bridge_message-Concerns json s now (binary (_ ∷ [])) e = tt
  bridge_message-Concerns json s now (binary (hi ∷ lo ∷ payload)) e =
      forward-Concerns s.conn (get_u16 hi lo) payload

  answers : (phone b : Connection) → bridge_for_phone g phone ≡ some b → P b
  unfolding bridge_for_phone
  answers phone b e = targets phone b (ground arith)

  pub phone_message-Concerns :
      (json : Json) (phone : Connection) (nb : Bool) (now : Text) (m : Incoming)
      → All (Concerns P (Names u)) (phone_message json g phone nb u now m)
  unfolding phone_message
  phone_message-Concerns json phone nb now (text input) =
      observed_message-Concerns P u g phone nb now (json.observed input)
  phone_message-Concerns json phone nb now (binary input) =
      to_bridge-Concerns P u (bridge_for_phone g phone) phone.conn_id input
        (λ b e. answers phone b e)
