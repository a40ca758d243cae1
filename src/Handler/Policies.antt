-- ===== src/Handler/Policies.antt =====
-- internal/relay/handler.go: the notification policy of a bridge session over its read loop.
use sesori_relay_server.Prelude.{
  ◌≡◌, ◌≢◌, ◌⊎◌, ◌∙◌, refl, sym, subst, inl, inr, Bool, List, [], ◌∷◌, Option, none, some, Text,
  Text-discrete, if_pos, if_neg, Bool-cases,
}
use sesori_relay_server.AccountGroup.{Connection, AccountGroup, is_current_bridge}
use sesori_relay_server.Handler.Bridge.{
  BridgeSession, new_bridge_session, normalize_notification_policy, set_policy, policy_update,
  policy_message, bridge_message,
}
use sesori_relay_server.Handler.Effects.{Effect, Incoming, text, binary}
use sesori_relay_server.Protocol.Messages.{
  Json, PolicyMessage, policy_normal, policy_suppress, policy_conservative,
  type_bridge_connection_notification_policy,
}

abbrev pub IsPolicy : Text → Type 0
IsPolicy p = (p ≡ policy_normal) ⊎ ((p ≡ policy_suppress) ⊎ (p ≡ policy_conservative))

pub normalize-IsPolicy : (p : Text) → IsPolicy (normalize_notification_policy p)
unfolding normalize_notification_policy
normalize-IsPolicy p = elim (Text-discrete p policy_normal) [
  | yes e ↦ subst IsPolicy (sym (if_pos (Text-discrete p policy_normal) e _ _)) (inl e)
  | no h ↦
      subst IsPolicy (sym (if_neg (Text-discrete p policy_normal) h _ _))
        (elim (Text-discrete p policy_suppress) [
          | yes e ↦
              subst IsPolicy (sym (if_pos (Text-discrete p policy_suppress) e _ _)) (inr (inl e))
          | no k ↦
              subst IsPolicy (sym (if_neg (Text-discrete p policy_suppress) k _ _))
                (elim (Text-discrete p policy_conservative) [
                  | yes e ↦
                      subst IsPolicy (sym (if_pos (Text-discrete p policy_conservative) e _ _))
                        (inr (inr e))
                  | no l ↦
                      subst IsPolicy (sym (if_neg (Text-discrete p policy_conservative) l _ _))
                        (inr (inr refl))
                ])
        ])
]

-- Both policies are known ones, and they agree unless the current one is `suppress`.
pub record IsSettled (s : BridgeSession) : Type 0 where
  pub policy : IsPolicy s.policy
  pub disconnect_policy : IsPolicy s.disconnect_policy
  pub agree : (s.policy ≡ policy_suppress) ⊎ (s.disconnect_policy ≡ s.policy)

-- A connection that was eligible for an offline notice stays so.
abbrev pub KeepsEligible : BridgeSession → BridgeSession → Type 0
KeepsEligible s t = s.disconnect_policy ≢ policy_suppress → t.disconnect_policy ≢ policy_suppress

abbrev Next : BridgeSession → BridgeSession → Type 0
Next s t = IsSettled t × KeepsEligible s t × (t.conn ≡ s.conn)

set_policy-Next :
    (s : BridgeSession) (p : Text) → IsSettled s → IsPolicy p → Next s (set_policy s p)
unfolding set_policy
set_policy-Next s p v k = elim (Text-discrete p policy_suppress) [
  | yes e ↦
      let kept : (set_policy s p).disconnect_policy ≡ s.disconnect_policy =
        if_pos (Text-discrete p policy_suppress) e _ _ in
      (
        record {
          policy = k;
          disconnect_policy = subst IsPolicy (sym kept) v.disconnect_policy;
          agree = inl e;
        },
        λ eligible suppressed. eligible (sym kept ∙ suppressed),
        refl,
      )
  | no ne ↦
      let updated : (set_policy s p).disconnect_policy ≡ p =
        if_neg (Text-discrete p policy_suppress) ne _ _ in
      (
        record {
          policy = k;
          disconnect_policy = subst IsPolicy (sym updated) k;
          agree = inr updated;
        },
        λ eligible suppressed. ne (sym updated ∙ suppressed),
        refl,
      )
]

same-Next : (s : BridgeSession) → IsSettled s → Next s s
same-Next s v = (v, λ h. h, refl)

policy_update-Next :
    (g : AccountGroup) (s : BridgeSession) (now p : Text)
    → IsSettled s
    → IsPolicy p
    → Next s (policy_update g s now p).0
unfolding policy_update
policy_update-Next g s now p v k = elim (Bool-cases (is_current_bridge g s.conn)) [
  | inl current ↦ rw (current, policy_update) (set_policy-Next s p v k)
  | inr stale ↦ rw (stale, policy_update) (same-Next s v)
]

policy_message-Next :
    (g : AccountGroup) (s : BridgeSession) (now : Text) (m : Option PolicyMessage)
    → IsSettled s
    → Next s (policy_message g s now m).0
unfolding policy_message
policy_message-Next g s now none v = same-Next s v
policy_message-Next g s now (some m) v =
    elim (Text-discrete m.type type_bridge_connection_notification_policy) [
      | yes e ↦
          subst (λ (r : BridgeSession × List Effect). Next s r.0)
            (sym (if_pos (Text-discrete m.type type_bridge_connection_notification_policy) e _ _))
            (policy_update-Next g s now (normalize_notification_policy m.policy) v
              (normalize-IsPolicy m.policy))
      | no h ↦
          subst (λ (r : BridgeSession × List Effect). Next s r.0)
            (sym (if_neg (Text-discrete m.type type_bridge_connection_notification_policy) h _ _))
            (same-Next s v)
    ]

bridge_message-Next :
    (json : Json) (g : AccountGroup) (s : BridgeSession) (now : Text) (m : Incoming)
    → IsSettled s
    → Next s (bridge_message json g s now m).0
unfolding bridge_message
bridge_message-Next json g s now (text input) v = policy_message-Next g s now (json.policy input) v
bridge_message-Next json g s now (binary []) v = same-Next s v
bridge_message-Next json g s now (binary (_ ∷ [])) v = same-Next s v
bridge_message-Next json g s now (binary (hi ∷ lo ∷ payload)) v = same-Next s v

pub new_bridge_session-IsSettled :
    (conn : Connection) (user_id requested : Text) (nb : Bool)
    → IsSettled (new_bridge_session conn user_id requested nb)
unfolding new_bridge_session
new_bridge_session-IsSettled conn user_id requested nb = record {
  policy = normalize-IsPolicy requested;
  disconnect_policy = normalize-IsPolicy requested;
  agree = inr refl;
}

-- The read loop: each message comes with the group at its lock and the time.
unfoldable pub read_loop :
    Json → BridgeSession → List (AccountGroup × Text × Incoming) → BridgeSession
read_loop json s [] = s
read_loop json s ((g, now, m) ∷ ms) = read_loop json (bridge_message json g s now m).0 ms

-- Over any sequence of messages to a bridge's read loop, whatever the group is at each of them, a
-- session whose policies are known ones that agree unless the current one is suppress stays such a
-- session; if its disconnect policy was not suppress, it does not become suppress; and the
-- session's connection stays the same.
pub read_loop_policies :
    (json : Json) (s : BridgeSession) (ms : List (AccountGroup × Text × Incoming))
    → IsSettled s
    → IsSettled (read_loop json s ms)
      × KeepsEligible s (read_loop json s ms)
      × ((read_loop json s ms).conn ≡ s.conn)
unfolding read_loop
read_loop_policies json s [] v = same-Next s v
read_loop_policies json s ((g, now, m) ∷ ms) v =
    let (v', keeps, conn) = bridge_message-Next json g s now m v in
    let (v'', keeps', conn') = read_loop_policies json (bridge_message json g s now m).0 ms v' in
    (v'', λ h. keeps' (keeps h), conn' ∙ conn)
