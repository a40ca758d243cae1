-- ===== src/World/Groups.antt =====
-- internal/relay/handler.go: the shared groups under every interleaving of the handlers.
use sesori_relay_server.Prelude.{
  ℕ, ◌≡◌, ◌∙◌, refl, sym, ap, subst, true, inl, inr, none, some, Text, ℕ_discrete, Bool-cases,
}
use sesori_relay_server.Prelude.Dict.{Distinct, lookup}
use sesori_relay_server.GroupManager.{GroupManager}
use sesori_relay_server.RateLimiter.{allow_connection}
use sesori_relay_server.World.{
  Stage, admitted, checked, joining, bridge_serving, phone_serving, leaving, ending, Handler, World,
  Step, Reach, arrives, checks, gets_group, adds_bridge, adds_phone, removes_bridge, removes_phone,
  collects, ends, here, next, new_world, arrive, get_group, withdraw_bridge, withdraw_phone,
  collect, finish, At, may_end, enter, at_stage,
}
use sesori_relay_server.World.Branches.{check_groups_cases, join_bridge_cases, join_phone_cases}
use sesori_relay_server.World.Shared.{
  Shared, stages, stage_of, update, stages-insert, stages-delete, grip, new-Shared,
}
use sesori_relay_server.World.Shared.Joins.{
  add_bridge-Shared, refused_bridge-Shared, add_phone-Shared, refused_phone-Shared,
}
use sesori_relay_server.World.Shared.Leaves.{
  remove_bridge-Shared, remove_phone-Shared, collect-Shared,
}
use sesori_relay_server.World.Shared.Quiet.{quiet-Shared, get_group-Shared}
use sesori_relay_server.World.Slots.{Reach-Accounted}

abbrev pub Consistent : World → Type 0
Consistent w = Shared w.manager (stages w.handlers)

-- The stage of a handler, from its entry.
pub At-stage :
    (w : World) (i : ℕ) (h : Handler) (s : Stage)
    → At w i h
    → h.stage ≡ s
    → stages w.handlers i ≡ some s
At-stage w i h s at e = ap stage_of at ∙ ap some e

-- The handlers after a move, as stages.
moved :
    (w : World) (m : GroupManager) (i : ℕ) (h : Handler) (s : Stage)
    → Shared m (update (stages w.handlers) i (some s))
    → Consistent (enter (record w { manager = m }) i (at_stage h s))
moved w m i h s v = subst (Shared m) (sym (stages-insert i (at_stage h s) w.handlers)) v

may_end-grip : (s : Stage) → may_end s ≡ true → grip (some s) ≡ none
may_end-grip admitted e = refl
may_end-grip checked e = refl
may_end-grip (joining _ _) e = cc
may_end-grip (bridge_serving _ _ _) e = cc
may_end-grip (phone_serving _ _ _) e = cc
may_end-grip (leaving _ _) e = cc
may_end-grip ending e = refl

arrive-Consistent :
    (w : World) (i : ℕ) (ip : Text)
    → Consistent w
    → lookup ℕ_discrete i w.handlers ≡ none
    → Consistent (arrive w i ip)
unfolding arrive
arrive-Consistent w i ip v new = elim (Bool-cases (allow_connection w.limiter ip).1) [
  | inl allowed ↦
      let h : Handler = record { ip = ip; stage = admitted } in
      rw allowed (
        subst (Shared w.manager) (sym (stages-insert i h w.handlers)) (
          quiet-Shared w.manager (stages w.handlers) i (some admitted) v (ap grip (ap stage_of new))
            refl))
  | inr refused ↦ rw refused v
]

Step-Consistent :
    (w t : World) → Step w t → Distinct ℕ_discrete w.handlers → Consistent w → Consistent t
unfolding get_group withdraw_bridge withdraw_phone collect finish
Step-Consistent w t (arrives i ip new e) d v =
    subst Consistent (sym e) (arrive-Consistent w i ip v new)
Step-Consistent w t (checks i h at s e) d v =
    let f = stages w.handlers in
    let old = ap grip (At-stage w i h admitted at s) in
    elim (check_groups_cases w i h) [
      | inl few ↦
          subst Consistent (sym (e ∙ few))
            (moved w w.manager i h checked (quiet-Shared w.manager f i (some checked) v old refl))
      | inr many ↦
          subst Consistent (sym (e ∙ many))
            (moved w w.manager i h ending (quiet-Shared w.manager f i (some ending) v old refl))
    ]
Step-Consistent w t (gets_group i h u at s e) d v = subst Consistent (sym e) (
    moved w _ i h _ (
      get_group-Shared w.manager (stages w.handlers) i u v (ap grip (At-stage w i h checked at s))))
Step-Consistent w t (adds_bridge i h u r g c at s found own e) d v =
    let stage = At-stage w i h (joining u r) at s in
    let f = stages w.handlers in
    elim (join_bridge_cases w i h u r g c) [
      | inl (ok, added) ↦
          subst Consistent (sym (e ∙ added))
            (moved w _ i h _ (add_bridge-Shared w.manager f i u r g c v stage found own ok))
      | inr (no_room, refused) ↦ subst Consistent (sym (e ∙ refused)) (
          moved w w.manager i h _
            (refused_bridge-Shared w.manager f i u r g c v stage found own no_room))
    ]
Step-Consistent w t (adds_phone i h u r g c (g', a) at s found own result e) d v =
    let stage = At-stage w i h (joining u r) at s in
    let f = stages w.handlers in
    elim (join_phone_cases w i h u r (g', a)) [
      | inl (ok, added) ↦ subst Consistent (sym (e ∙ added)) (
          moved w _ i h _ (add_phone-Shared w.manager f i u r g c v stage found own g' a result ok))
      | inr (no_room, refused) ↦ subst Consistent (sym (e ∙ refused)) (
          moved w w.manager i h _
            (refused_phone-Shared w.manager f i u r g c v stage found own g' a result no_room))
    ]
Step-Consistent w t (removes_bridge i h u r g c at s found e) d v = subst Consistent (sym e) (
    moved w _ i h _ (
      remove_bridge-Shared w.manager (stages w.handlers) i u r g c v found
        (At-stage w i h (bridge_serving u r c) at s)))
Step-Consistent w t (removes_phone i h u r g c at s found e) d v = subst Consistent (sym e) (
    moved w _ i h _ (
      remove_phone-Shared w.manager (stages w.handlers) i u r g c v found
        (At-stage w i h (phone_serving u r c) at s)))
Step-Consistent w t (collects i h u r at s e) d v = subst Consistent (sym e) (
    moved w _ i h _
      (collect-Shared w.manager (stages w.handlers) i u r v (At-stage w i h (leaving u r) at s)))
Step-Consistent w t (ends i h at may e) d v = subst Consistent (sym e) (
    subst (Shared w.manager) (sym (stages-delete i w.handlers d)) (
      quiet-Shared w.manager (stages w.handlers) i none v
        (ap grip (At-stage w i h h.stage at refl) ∙ may_end-grip h.stage may) refl))

-- In every reachable world the manager is well formed; the group that a handler holds exists and is
-- one of its user; a registered bridge or phone belongs to a handler that serves it for the user of
-- the group; a handler serves its own connection; a phone that is served is registered under its
-- id; and a registered group that is empty is held by a handler that is about to fill or to collect
-- it.
pub Reach-Consistent : (limit rooms : ℕ) {w : World} → Reach limit rooms w → Consistent w
unfolding new_world
Reach-Consistent limit rooms here = new-Shared
Reach-Consistent limit rooms (next {w} {t} r st) =
    Step-Consistent w t st (Reach-Accounted limit rooms r).distinct (Reach-Consistent limit rooms r)
