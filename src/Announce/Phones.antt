-- ===== src/Announce/Phones.antt =====
-- internal/relay/handler.go: the notices of a change of the bridges, as a phone reads them.
use sesori_relay_server.Prelude.{
  ℕ, ◌≡◌, ◌≢◌, ◌∙◌, refl, sym, ap, subst, Bool, true, List, [], ◌∷◌, ◌++◌, Option, none, some, Text,
  Text-discrete, arith, inl, inr, Option-cases,
}
use sesori_relay_server.Prelude.Dict.{
  Dict, Distinct, lookup, insert, delete, lookup-insert, lookup-delete_self, lookup-delete_ne,
}
use sesori_relay_server.AccountGroup.{
  Connection, AccountGroup, Added, TargetChange, same, target, change_of, changes_of, targets_of,
  add_bridge, remove_bridge, all_phones,
}
use sesori_relay_server.AccountGroup.Invariant.{IsValid, add_bridge-IsValid, remove_bridge-IsValid}
use sesori_relay_server.AccountGroup.Methods.{
  with_bridge, without_bridge, add_bridge_cases, remove_bridge_cases,
}
use sesori_relay_server.AccountGroup.Routing.{Within, target-lookup}
use sesori_relay_server.Announce.{
  Notice, announce_next, announce_change, announce_target_changes, write_control,
}
use sesori_relay_server.Announce.Views.{phone_view, phone_view-append, name}

-- No two connections of the list are the same object.
abbrev pub DistinctRefs : List Connection → Type 0
DistinctRefs [] = Unit {0}
DistinctRefs (p ∷ ps) = ((q : Connection) → Within q ps → q.ref ≢ p.ref) × DistinctRefs ps

-- Targets that are the same object are the same connection.
abbrev pub SameTargets : AccountGroup → AccountGroup → Connection → Type 0
SameTargets g g' p = same (target g' p) (target g p) ≡ true → target g' p ≡ target g p

-- The notices of one round, of a phone `q` whose target was `previous`.
unfoldable pub round : AccountGroup → Connection → Option Connection → List Notice
round g q previous = elim (change_of g q previous) [
  | none ↦ []
  | some change ↦ announce_change change
]

pub announce-rounds :
    (g : AccountGroup) (q : Connection) (previous : Option Connection)
    (before : List (Connection × Option Connection))
    → announce_target_changes (changes_of g ((q, previous) ∷ before))
      ≡ round g q previous ++ announce_target_changes (changes_of g before)
unfolding round changes_of announce_target_changes
announce-rounds g q previous before = ground arith

-- A round for another phone changes nothing for this one.
round-other :
    (g : AccountGroup) (q : Connection) (previous : Option Connection) (ref : ℕ) (v : Option Text)
    → q.ref ≢ ref
    → phone_view ref v (round g q previous) ≡ v
unfolding round change_of announce_change announce_next write_control phone_view
round-other g q previous ref v ne = ground arith

-- A round for this phone tells it its target.
round_self :
    (g g' : AccountGroup) (p : Connection)
    → SameTargets g g' p
    → phone_view p.ref (name (target g p)) (round g' p (target g p)) ≡ name (target g' p)
unfolding round change_of announce_change announce_next write_control phone_view
round_self g g' p h = ground arith

abbrev pub notices : AccountGroup → AccountGroup → List Connection → List Notice
notices g g' ps = announce_target_changes (changes_of g' (targets_of g ps))

pub notices-absent :
    (g g' : AccountGroup) (ref : ℕ) (v : Option Text) (ps : List Connection)
    → ((q : Connection) → Within q ps → q.ref ≢ ref)
    → phone_view ref v (notices g g' ps) ≡ v
unfolding targets_of changes_of announce_target_changes phone_view
notices-absent g g' ref v [] h = refl
notices-absent g g' ref v (q ∷ ps) h =
    ap (phone_view ref v) (announce-rounds g' q (target g q) (targets_of g ps))
    ∙ phone_view-append ref v (round g' q (target g q)) (notices g g' ps)
    ∙ ap (λ w. phone_view ref w (notices g g' ps))
        (round-other g' q (target g q) ref v (h q (inl refl)))
    ∙ notices-absent g g' ref v ps (λ r w. h r (inr w))

pub notices-present :
    (g g' : AccountGroup) (p : Connection) (ps : List Connection)
    → Within p ps
    → DistinctRefs ps
    → SameTargets g g' p
    → phone_view p.ref (name (target g p)) (notices g g' ps) ≡ name (target g' p)
unfolding targets_of
notices-present g g' p [] w d h = elim w [ ]
notices-present g g' p (q ∷ ps) (inl e) d h =
    subst (λ r. phone_view p.ref (name (target g p)) (notices g g' (r ∷ ps)) ≡ name (target g' p))
      (sym e)
      (ap (phone_view p.ref (name (target g p)))
          (announce-rounds g' p (target g p) (targets_of g ps))
        ∙ phone_view-append p.ref (name (target g p)) (round g' p (target g p)) (notices g g' ps)
        ∙ ap (λ w. phone_view p.ref w (notices g g' ps)) (round_self g g' p h)
        ∙ notices-absent g g' p.ref (name (target g' p)) ps
            (λ r w. subst (λ s. r.ref ≢ s.ref) e (d.0 r w)))
notices-present g g' p (q ∷ ps) (inr w) d h =
    ap (phone_view p.ref (name (target g p))) (announce-rounds g' q (target g q) (targets_of g ps))
    ∙ phone_view-append p.ref (name (target g p)) (round g' q (target g q)) (notices g g' ps)
    ∙ ap (λ v. phone_view p.ref v (notices g g' ps))
        (round-other g' q (target g q) p.ref (name (target g p)) (λ e. d.0 p w (sym e)))
    ∙ notices-present g g' p ps w d.1 h

-- Bridges of the two maps that are the same object are the same connection.
abbrev pub Coherent : Dict Text Connection → Dict Text Connection → Type 0
Coherent m n =
    (a b : Connection)
    → lookup Text-discrete a.bridge_id m ≡ some a
    → lookup Text-discrete b.bridge_id n ≡ some b
    → a.ref ≡ b.ref
    → a ≡ b

-- The new connection is another object than every bridge of the map.
abbrev pub IsFresh : Connection → Dict Text Connection → Type 0
IsFresh bridge m =
    (a : Connection) → lookup Text-discrete a.bridge_id m ≡ some a → a.ref ≢ bridge.ref

pub Coherent-SameTargets :
    (g g' : AccountGroup) (p : Connection)
    → IsValid g
    → IsValid g'
    → Coherent g.bridges g'.bridges
    → SameTargets g g' p
unfolding same
Coherent-SameTargets g g' p v v' c = elim (Option-cases (target g p)) [
  | inl e ↦ ground arith
  | inr (a, e) ↦ elim (Option-cases (target g' p)) [
    | inl e' ↦ ground arith
    | inr (b, e') ↦ ground (arith, c a b (target-lookup g p a v e) (target-lookup g' p b v' e'))
  ]
]

pub Coherent-insert :
    (m : Dict Text Connection) (bridge : Connection)
    → Coherent m m
    → IsFresh bridge m
    → Coherent m (insert Text-discrete bridge.bridge_id bridge m)
Coherent-insert m bridge c f a b ha hb e =
    ground
      (arith, f a ha, c a b ha, lookup-insert Text-discrete bridge.bridge_id b.bridge_id bridge m)

pub Coherent-delete :
    (m : Dict Text Connection) (k : Text)
    → Distinct Text-discrete m
    → Coherent m m
    → Coherent m (delete Text-discrete k m)
Coherent-delete m k d c a b ha hb e = elim (Text-discrete b.bridge_id k) [
  | yes same_key ↦ absurd (
      ground (
        arith,
        lookup-delete_self Text-discrete k m d,
        ap (λ j. lookup Text-discrete j (delete Text-discrete k m)) same_key,
      ))
  | no other ↦ c a b ha (sym (lookup-delete_ne Text-discrete k b.bridge_id m other) ∙ hb) e
]

nothing_sent : (ref : ℕ) (v : Option Text) → phone_view ref v (announce_target_changes []) ≡ v
unfolding phone_view announce_target_changes
nothing_sent ref v = refl

-- In a valid group whose connections are told apart by their addresses, let a bridge of a new
-- address be added by AddBridge. A registered phone that knew the id of its target before (or that
-- it had none), and then reads the notices of announceTargetChanges that are written to it, knows
-- the id of its target in the new group (or that it has none).
pub add_bridge-phone_view :
    (g : AccountGroup) (bridge p : Connection)
    → IsValid g
    → DistinctRefs (all_phones g)
    → Coherent g.bridges g.bridges
    → IsFresh bridge g.bridges
    → Within p (all_phones g)
    → let (g', added) = add_bridge g bridge in
      phone_view p.ref (name (target g p)) (announce_target_changes added.changes)
      ≡ name (target g' p)
add_bridge-phone_view g bridge p v d c f w = elim (add_bridge_cases g bridge) [
  | inl (_, _, refused) ↦ subst Informed (sym refused) (nothing_sent p.ref (name (target g p)))
  | inr (_, added) ↦
      let g' = with_bridge g bridge in
      let v' : IsValid g' = subst (λ r. IsValid r.0) added (add_bridge-IsValid g bridge v) in
      subst Informed (sym added) (
        notices-present g g' p (all_phones g) w d
          (Coherent-SameTargets g g' p v v' (Coherent-insert g.bridges bridge c f)))
]
  where
    Informed : AccountGroup × Added → Type 0
    Informed r =
        phone_view p.ref (name (target g p)) (announce_target_changes r.1.changes)
        ≡ name (target r.0 p)

-- In a valid group whose connections are told apart by their addresses, let a bridge be removed by
-- RemoveBridge. A registered phone that knew the id of its target before (or that it had none), and
-- then reads the notices of announceTargetChanges that are written to it, knows the id of its
-- target in the new group (or that it has none).
pub remove_bridge-phone_view :
    (g : AccountGroup) (bridge p : Connection)
    → IsValid g
    → DistinctRefs (all_phones g)
    → Coherent g.bridges g.bridges
    → Within p (all_phones g)
    → let (g', _, changes) = remove_bridge g bridge in
      phone_view p.ref (name (target g p)) (announce_target_changes changes) ≡ name (target g' p)
remove_bridge-phone_view g bridge p v d c w = elim (remove_bridge_cases g bridge) [
  | inl (_, refused) ↦ subst Informed (sym refused) (nothing_sent p.ref (name (target g p)))
  | inr (_, removed) ↦
      let g' = without_bridge g bridge in
      let v' : IsValid g' = subst (λ r. IsValid r.0) removed (remove_bridge-IsValid g bridge v) in
      subst Informed (sym removed) (
        notices-present g g' p (all_phones g) w d (
          Coherent-SameTargets g g' p v v'
            (Coherent-delete g.bridges bridge.bridge_id v.distinct_bridges c)))
]
  where
    Informed : AccountGroup × Bool × List TargetChange → Type 0
    Informed r =
        phone_view p.ref (name (target g p)) (announce_target_changes r.2) ≡ name (target r.0 p)
