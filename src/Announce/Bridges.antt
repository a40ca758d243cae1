-- ===== src/Announce/Bridges.antt =====
-- internal/relay/handler.go: the notices of a change of the bridges, as a bridge reads them.
use sesori_relay_server.Prelude.{
  ℕ, ◌≡◌, ◌≢◌, ◌∙◌, refl, sym, ap, subst, Bool, true, List, [], ◌∷◌, Option, some, Text-discrete,
  ℕ_discrete, arith, inl, inr, Option-cases,
}
use sesori_relay_server.Prelude.Dict.{Dict, Distinct, Entries, lookup, values}
use sesori_relay_server.AccountGroup.{
  Connection, AccountGroup, Added, TargetChange, same, target, change_of, changes_of, targets_of,
  add_bridge, remove_bridge, all_phones, still_connected, is_current_bridge,
}
use sesori_relay_server.AccountGroup.Invariant.{IsValid, HasId}
use sesori_relay_server.AccountGroup.Methods.{
  with_bridge, without_bridge, add_bridge_cases, remove_bridge_cases,
}
use sesori_relay_server.AccountGroup.Routing.{Within, Within-lookup, target-lookup, same_self}
use sesori_relay_server.Announce.{
  announce_next, announce_change, announce_target_changes, write_control,
}
use sesori_relay_server.Announce.Phones.{
  Coherent, IsFresh, Coherent-insert, Coherent-delete, round, announce-rounds, notices,
}
use sesori_relay_server.Announce.Views.{bridge_view, bridge_view-append}

-- No two phones of the list have the same connection id.
abbrev pub DistinctIds : List Connection → Type 0
DistinctIds [] = Unit {0}
DistinctIds (p ∷ ps) = ((q : Connection) → Within q ps → q.conn_id ≢ p.conn_id) × DistinctIds ps

pub values-DistinctIds :
    (m : Dict ℕ Connection)
    → Distinct ℕ_discrete m
    → Entries ℕ_discrete HasId m
    → DistinctIds (values m)
values-DistinctIds [] d h = tt
values-DistinctIds ((k, p) ∷ m) d h = (
  λ q w e.
      ground
        (arith, (Within-lookup q m d.1 h.1).0 w, ap (λ j. lookup ℕ_discrete j m) (e ∙ h.0.0), d.0),
  values-DistinctIds m d.1 h.1,
)

-- The old target of the phone, if it is the bridge `b`, is still current after the change.
abbrev pub StaysCurrent : AccountGroup → AccountGroup → Connection → Connection → Type 0
StaysCurrent g g' p b =
    (a : Connection) → target g p ≡ some a → a.ref ≡ b.ref → is_current_bridge g' a ≡ true

round-other :
    (g : AccountGroup) (q : Connection) (previous : Option Connection) (ref id : ℕ) (v : Bool)
    → q.conn_id ≢ id
    → bridge_view ref id v (round g q previous) ≡ v
unfolding round change_of announce_change announce_next write_control bridge_view
round-other g q previous ref id v ne = ground arith

round_self :
    (g g' : AccountGroup) (p b : Connection)
    → StaysCurrent g g' p b
    → bridge_view b.ref p.conn_id (same (target g p) (some b)) (round g' p (target g p))
      ≡ same (target g' p) (some b)
unfolding round change_of announce_change announce_next write_control bridge_view same
    still_connected
round_self g g' p b h = elim (Option-cases (target g p)) [
  | inl e ↦ ground arith
  | inr (a, e) ↦ ground (arith, h a e)
]

pub notices-absent :
    (g g' : AccountGroup) (ref id : ℕ) (v : Bool) (ps : List Connection)
    → ((q : Connection) → Within q ps → q.conn_id ≢ id)
    → bridge_view ref id v (notices g g' ps) ≡ v
unfolding targets_of changes_of announce_target_changes bridge_view
notices-absent g g' ref id v [] h = refl
notices-absent g g' ref id v (q ∷ ps) h =
    ap (bridge_view ref id v) (announce-rounds g' q (target g q) (targets_of g ps))
    ∙ bridge_view-append ref id v (round g' q (target g q)) (notices g g' ps)
    ∙ ap (λ w. bridge_view ref id w (notices g g' ps))
        (round-other g' q (target g q) ref id v (h q (inl refl)))
    ∙ notices-absent g g' ref id v ps (λ r w. h r (inr w))

pub notices-present :
    (g g' : AccountGroup) (p b : Connection) (ps : List Connection)
    → Within p ps
    → DistinctIds ps
    → StaysCurrent g g' p b
    → bridge_view b.ref p.conn_id (same (target g p) (some b)) (notices g g' ps)
      ≡ same (target g' p) (some b)
unfolding targets_of
notices-present g g' p b [] w d h = elim w [ ]
notices-present g g' p b (q ∷ ps) (inl e) d h =
    subst
      (λ r.
        bridge_view b.ref p.conn_id (same (target g p) (some b)) (notices g g' (r ∷ ps))
        ≡ same (target g' p) (some b))
      (sym e)
      (ap (bridge_view b.ref p.conn_id (same (target g p) (some b)))
          (announce-rounds g' p (target g p) (targets_of g ps))
        ∙ bridge_view-append b.ref p.conn_id (same (target g p) (some b)) (round g' p (target g p))
            (notices g g' ps)
        ∙ ap (λ w. bridge_view b.ref p.conn_id w (notices g g' ps)) (round_self g g' p b h)
        ∙ notices-absent g g' b.ref p.conn_id (same (target g' p) (some b)) ps
            (λ r w. subst (λ s. r.conn_id ≢ s.conn_id) e (d.0 r w)))
notices-present g g' p b (q ∷ ps) (inr w) d h =
    ap (bridge_view b.ref p.conn_id (same (target g p) (some b)))
      (announce-rounds g' q (target g q) (targets_of g ps))
    ∙ bridge_view-append b.ref p.conn_id (same (target g p) (some b)) (round g' q (target g q))
        (notices g g' ps)
    ∙ ap (λ v. bridge_view b.ref p.conn_id v (notices g g' ps))
        (round-other g' q (target g q) b.ref p.conn_id (same (target g p) (some b))
          (λ e. d.0 p w (sym e)))
    ∙ notices-present g g' p b ps w d.1 h

pub Coherent-StaysCurrent :
    (g g' : AccountGroup) (p b : Connection)
    → IsValid g
    → Coherent g.bridges g'.bridges
    → lookup Text-discrete b.bridge_id g'.bridges ≡ some b
    → StaysCurrent g g' p b
unfolding is_current_bridge
Coherent-StaysCurrent g g' p b v c here a e refs =
    let a≡b : a ≡ b = c a b (target-lookup g p a v e) here refs in
    subst (λ x. is_current_bridge g' x ≡ true) (sym a≡b) (rw here (same_self b))

nothing_sent : (ref id : ℕ) (v : Bool) → bridge_view ref id v (announce_target_changes []) ≡ v
unfolding bridge_view announce_target_changes
nothing_sent ref id v = refl

-- In a valid group whose bridges are told apart by their addresses, let a bridge of a new address
-- be added by AddBridge. A bridge that is registered afterwards, the new one included, and that
-- knew whether a registered phone talked to it, knows from the notices that are written to it
-- whether this phone talks to it in the new group.
pub add_bridge-bridge_view :
    (g : AccountGroup) (bridge p b : Connection)
    → IsValid g
    → Coherent g.bridges g.bridges
    → IsFresh bridge g.bridges
    → Within p (all_phones g)
    → lookup Text-discrete b.bridge_id (add_bridge g bridge).0.bridges ≡ some b
    → let (g', added) = add_bridge g bridge in
      bridge_view b.ref p.conn_id
        (same (target g p) (some b))
        (announce_target_changes added.changes)
      ≡ same (target g' p) (some b)
unfolding all_phones
add_bridge-bridge_view g bridge p b v c f w here = elim (add_bridge_cases g bridge) [
  | inl (_, _, refused) ↦
      subst Informed (sym refused) (nothing_sent b.ref p.conn_id (same (target g p) (some b)))
  | inr (_, added) ↦
      let g' = with_bridge g bridge in
      let here' = subst (λ r. lookup Text-discrete b.bridge_id r.0.bridges ≡ some b) added here in
      subst Informed (sym added) (
        notices-present g g' p b (all_phones g) w
          (values-DistinctIds g.phones v.distinct_phones v.phone_ids)
          (Coherent-StaysCurrent g g' p b v (Coherent-insert g.bridges bridge c f) here'))
]
  where
    Informed : AccountGroup × Added → Type 0
    Informed r =
        bridge_view b.ref p.conn_id (same (target g p) (some b))
          (announce_target_changes r.1.changes)
        ≡ same (target r.0 p) (some b)

-- In a valid group whose bridges are told apart by their addresses, let a bridge be removed by
-- RemoveBridge. A bridge that is still registered afterwards, and that knew whether a registered
-- phone talked to it, knows from the notices that are written to it whether this phone talks to it
-- in the new group.
pub remove_bridge-bridge_view :
    (g : AccountGroup) (bridge p b : Connection)
    → IsValid g
    → Coherent g.bridges g.bridges
    → Within p (all_phones g)
    → lookup Text-discrete b.bridge_id (remove_bridge g bridge).0.bridges ≡ some b
    → let (g', _, changes) = remove_bridge g bridge in
      bridge_view b.ref p.conn_id (same (target g p) (some b)) (announce_target_changes changes)
      ≡ same (target g' p) (some b)
unfolding all_phones
remove_bridge-bridge_view g bridge p b v c w here = elim (remove_bridge_cases g bridge) [
  | inl (_, refused) ↦
      subst Informed (sym refused) (nothing_sent b.ref p.conn_id (same (target g p) (some b)))
  | inr (_, removed) ↦
      let g' = without_bridge g bridge in
      let here' = subst (λ r. lookup Text-discrete b.bridge_id r.0.bridges ≡ some b) removed here in
      subst Informed (sym removed) (
        notices-present g g' p b (all_phones g) w
          (values-DistinctIds g.phones v.distinct_phones v.phone_ids)
          (Coherent-StaysCurrent g g' p b v
            (Coherent-delete g.bridges bridge.bridge_id v.distinct_bridges c) here'))
]
  where
    Informed : AccountGroup × Bool × List TargetChange → Type 0
    Informed r =
        bridge_view b.ref p.conn_id (same (target g p) (some b)) (announce_target_changes r.2)
        ≡ same (target r.0 p) (some b)
