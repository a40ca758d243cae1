-- ===== src/World/Told/Invariant.antt =====
-- internal/relay/handler.go: every connection knows its peers, under every interleaving of the accesses
-- to the groups.
use sesori_relay_server.Prelude.{
  ℕ, ◌≡◌, ◌∙◌, refl, sym, ap, subst, inl, inr, true, false, List, [], none, some, Text,
  Text-discrete, ℕ_discrete, ◌&&◌, not, Bool-cases,
}
use sesori_relay_server.Prelude.Dict.{lookup}
use sesori_relay_server.AccountGroup.{
  Connection, AccountGroup, Registered, same, target, all_phones, add_bridge, remove_bridge,
  add_phone, remove_phone,
}
use sesori_relay_server.Announce.{Notice, announce_target_changes}
use sesori_relay_server.Announce.Views.{phone_view, bridge_view, name}
use sesori_relay_server.GroupManager.{
  group_at, set_group, has_live_bridge_with_id, new_group_manager,
}
use sesori_relay_server.Handler.Lifecycle.{sent}
use sesori_relay_server.Handler.Phone.{phone_opened, phone_closed}
use sesori_relay_server.World.{
  Stage, admitted, checked, joining, bridge_serving, phone_serving, leaving, ending, Handler, World,
  check_groups, join_bridge, join_phone, enter, at_stage, stored, Step, Reach, here, next, arrives,
  checks, gets_group, adds_bridge, adds_phone, removes_bridge, removes_phone, collects, ends,
  new_world, get_group, withdraw_bridge, withdraw_phone, collect, finish, At,
}
use sesori_relay_server.World.Branches.{check_groups_cases, join_bridge_cases, join_phone_cases}
use sesori_relay_server.World.Groups.{Consistent, Reach-Consistent, At-stage}
use sesori_relay_server.World.Shared.{stages, stages-delete, grip}
use sesori_relay_server.World.Slots.{Reach-Accounted}
use sesori_relay_server.World.Told.{
  Beliefs, Told, begin, moves, after, hear, forget, joining_notices, leaving_notices, no_beliefs,
}
use sesori_relay_server.World.Told.Changes.{add_bridge-Informs, remove_bridge-Informs}
use sesori_relay_server.World.Told.Knows.{Knows, Informs, store-Knows, talks_to, waits}
use sesori_relay_server.World.Told.Phones.{add_phone-Informs, remove_phone-Informs}
use sesori_relay_server.World.Told.Quiet.{
  KnowsIn, hear-presence, quiet-Knows, entered, arrive-Knows, get_group-Knows, collect-Knows,
}

pub Told-Reach :
    {limit rooms : ℕ} {w : World} {b : Beliefs} → Told limit rooms w b → Reach limit rooms w
Told-Reach begin = here
Told-Reach (moves before st e) = next (Told-Reach before) st

-- Nothing is written.
hear-nil : (b : Beliefs) → hear b [] ≡ b
unfolding hear phone_view bridge_view
hear-nil b = refl

-- Every reachable world is one of these, with some beliefs.
pub Reach-Told :
    {limit rooms : ℕ} {w : World} → Reach limit rooms w → (b : Beliefs) × Told limit rooms w b
Reach-Told here = (no_beliefs, begin)
Reach-Told (next r st) = let (b, told) = Reach-Told r in (after b st, moves told st refl)

module _ (limit rooms : ℕ) (w : World) (b : Beliefs) (r : Reach limit rooms w)
    (k : KnowsIn w b) where
  consistent : Consistent w
  consistent = Reach-Consistent limit rooms r

  -- A handler that has nothing to clean up goes on.
  quiet_move :
      (i : ℕ) (h : Handler) (s : Stage)
      → ((id : ℕ) → waits (some s) ≡ true → b.talks i id ≡ false)
      → KnowsIn (enter w i (at_stage h s)) b
  quiet_move i h s q =
      entered w b w.manager i h s (quiet-Knows w.manager (stages w.handlers) b i k (some s) q)

  -- A handler writes its group back, and its notices.
  writing :
      (i : ℕ) (h : Handler) (u : Text) (ref : ℕ) (g' : AccountGroup) (s : Stage) (ns : List Notice)
      → grip (stages w.handlers i) ≡ some (u, ref)
      → waits (some s) ≡ false
      → Informs (stages w.handlers) b i ref g' ns
      → KnowsIn (stored w i h ref g' s) (hear b ns)
  writing i h u ref g' s ns holds busy informs =
      entered w (hear b ns) (set_group w.manager ref g') i h s (
        store-Knows w.manager (stages w.handlers) b i u ref g' s ns consistent k holds busy informs)

  checks-Knows :
      (i : ℕ) (h : Handler) → At w i h → h.stage ≡ admitted → KnowsIn (check_groups w i h) b
  checks-Knows i h at s =
      let new = λ (id : ℕ). k.waiting i id (ap waits (At-stage w i h admitted at s)) in
      elim (check_groups_cases w i h) [
        | inl few ↦ subst (λ t. KnowsIn t b) (sym few) (quiet_move i h checked (λ id _. new id))
        | inr many ↦ subst (λ t. KnowsIn t b) (sym many) (quiet_move i h ending (λ id _. new id))
      ]

  joins-Knows :
      (i : ℕ) (h : Handler) (u : Text) (ref : ℕ) (g : AccountGroup) (c : Connection)
      → stages w.handlers i ≡ some (joining u ref)
      → group_at w.manager ref ≡ some g
      → c.ref ≡ i
      → KnowsIn (join_bridge w i h u ref g c) (hear b (joining_notices g c))
  unfolding joining_notices
  joins-Knows i h u ref g c stage found own = elim (join_bridge_cases w i h u ref g c) [
    | inl (ok, added) ↦
        let at = ap (stages w.handlers) own ∙ stage in
        let informs = add_bridge-Informs w b ref g consistent k found c u at ok in
        let ns = announce_target_changes (add_bridge g c).1.changes in
        let g' = (add_bridge g c).0 in
        let written : hear b (joining_notices g c) ≡ hear b ns =
          rw ok (hear-presence b ns (all_phones g') c.bridge_id true) in
        subst (λ t. KnowsIn t (hear b (joining_notices g c))) (sym added)
          (subst (KnowsIn (stored w i h ref g' (bridge_serving u ref c))) (sym written) (
            writing i h u ref g' (bridge_serving u ref c) ns (ap grip stage) refl
              (subst (λ j. Informs (stages w.handlers) b j ref g' ns) own informs)))
    | inr (no_room, refused) ↦
        let nothing : joining_notices g c ≡ [] = rw no_room refl in
        subst (λ t. KnowsIn t (hear b (joining_notices g c))) (sym refused)
          (subst (KnowsIn (enter w i (at_stage h ending))) (sym (ap (hear b) nothing ∙ hear-nil b))
            (quiet_move i h ending (λ id w. absurd (cc))))
  ]

  opens-Knows :
      (i : ℕ) (h : Handler) (u : Text) (ref : ℕ) (g : AccountGroup) (c : Connection)
      (g' : AccountGroup) (added : Registered)
      → stages w.handlers i ≡ some (joining u ref)
      → group_at w.manager ref ≡ some g
      → c.ref ≡ i
      → add_phone g c ≡ some (g', added)
      → KnowsIn (join_phone w i h u ref (g', added)) (hear b (sent (phone_opened added)))
  unfolding phone_opened sent
  opens-Knows i h u ref g c g' added stage found own result =
      elim (join_phone_cases w i h u ref (g', added)) [
        | inl (ok, joined) ↦
            let at = ap (stages w.handlers) own ∙ stage in
            let informs =
              add_phone-Informs w b ref g consistent k found c u g' added at result ok in
            subst (λ t. KnowsIn t (hear b (sent (phone_opened added)))) (sym joined)
              (writing i h u ref g' (phone_serving u ref added.phone) _ (ap grip stage) refl (
                subst (λ j. Informs (stages w.handlers) b j ref g' (sent (phone_opened added))) own
                  informs))
        | inr (no_room, refused) ↦
            let nothing : sent (phone_opened added) ≡ [] = rw no_room refl in
            subst (λ t. KnowsIn t (hear b (sent (phone_opened added)))) (sym refused)
              (subst (KnowsIn (enter w i (at_stage h ending)))
                (sym (ap (hear b) nothing ∙ hear-nil b))
                (quiet_move i h ending (λ id w. absurd (cc))))
      ]

  leaves-Knows :
      (i : ℕ) (h : Handler) (u : Text) (ref : ℕ) (g : AccountGroup) (c : Connection)
      → stages w.handlers i ≡ some (bridge_serving u ref c)
      → group_at w.manager ref ≡ some g
      → KnowsIn (withdraw_bridge w i h u ref g c) (hear b (leaving_notices w.manager u ref g c))
  unfolding withdraw_bridge leaving_notices
  leaves-Knows i h u ref g c stage found =
      let g' = (remove_bridge g c).0 in
      let ns = announce_target_changes (remove_bridge g c).2 in
      let live = has_live_bridge_with_id (set_group w.manager ref g') u c.bridge_id in
      let written : hear b (leaving_notices w.manager u ref g c) ≡ hear b ns =
        elim (Bool-cases ((remove_bridge g c).1 && not live)) [
          | inl announced ↦ rw announced (hear-presence b ns (all_phones g') c.bridge_id false)
          | inr silent ↦ rw silent refl
        ] in
      subst (KnowsIn (stored w i h ref g' (leaving u ref))) (sym written) (
        writing i h u ref g' (leaving u ref) ns (ap grip stage) refl
          (remove_bridge-Informs w b ref g consistent k found i c))

  Step-Knows : (t : World) → (st : Step w t) → KnowsIn t (after b st)
  unfolding after get_group withdraw_bridge withdraw_phone collect finish
  Step-Knows t (arrives i ip new e) =
      subst (λ x. KnowsIn x (forget b i)) (sym e) (arrive-Knows w b i ip consistent k new)
  Step-Knows t (checks i h at s e) = subst (λ x. KnowsIn x b) (sym e) (checks-Knows i h at s)
  Step-Knows t (gets_group i h u at s e) =
      subst (λ x. KnowsIn x b) (sym e)
        (entered w b _ i h _ (
          get_group-Knows w.manager (stages w.handlers) b i u k
            (ap waits (At-stage w i h checked at s))))
  Step-Knows t (adds_bridge i h u ref g c at s found own e) =
      subst (λ x. KnowsIn x (hear b (joining_notices g c))) (sym e)
        (joins-Knows i h u ref g c (At-stage w i h (joining u ref) at s) found own)
  Step-Knows t (adds_phone i h u ref g c (g', added) at s found own result e) =
      subst (λ x. KnowsIn x (hear b (sent (phone_opened added)))) (sym e)
        (opens-Knows i h u ref g c g' added (At-stage w i h (joining u ref) at s) found own result)
  Step-Knows t (removes_bridge i h u ref g c at s found e) =
      subst (λ x. KnowsIn x (hear b (leaving_notices w.manager u ref g c))) (sym e)
        (leaves-Knows i h u ref g c (At-stage w i h (bridge_serving u ref c) at s) found)
  Step-Knows t (removes_phone i h u ref g c at s found e) =
      let stage = At-stage w i h (phone_serving u ref c) at s in
      subst (λ x. KnowsIn x (hear b (sent (phone_closed c (remove_phone g c).1)))) (sym e)
        (writing i h u ref (remove_phone g c).0 (leaving u ref) _ (ap grip stage) refl
          (remove_phone-Informs w b ref g consistent k found i c u stage))
  Step-Knows t (collects i h u ref at s e) =
      subst (λ x. KnowsIn x b) (sym e)
        (entered w b _ i h ending (collect-Knows w.manager (stages w.handlers) b i u ref k))
  Step-Knows t (ends i h at may e) =
      subst (λ x. KnowsIn x b) (sym e)
        (subst (λ f. Knows w.manager f b)
          (sym (stages-delete i w.handlers (Reach-Accounted limit rooms r).distinct))
          (quiet-Knows w.manager (stages w.handlers) b i k none (λ id w. absurd (cc))))

Told-Knows : (limit rooms : ℕ) {w : World} {b : Beliefs} → Told limit rooms w b → KnowsIn w b
unfolding new_world new_group_manager group_at lookup
Told-Knows limit rooms begin = record {
  phones = λ r g id p e. absurd (cc);
  bridges = λ r g key c id e. absurd (cc);
  waiting = λ i id e. refl;
}
Told-Knows limit rooms (moves {w} {t} {b} {c} before st e) =
    subst (KnowsIn t) (sym e)
      (Step-Knows limit rooms w b (Told-Reach before) (Told-Knows limit rooms before) t st)

-- Let the notices of each access to a group, those of announceTargetChanges, of presence and of a
-- phone's handler, be written before the next access. In every reachable world, with the beliefs
-- that its connections have from all notices written to them since they came: a registered phone
-- believes in the id of its target (or that it has none); a registered bridge believes of a
-- registered phone that it talks to it exactly if the bridge is the phone's target; and it believes
-- of a connection id that no phone has that nobody talks to it under this id.
pub peers_know :
    (limit rooms : ℕ) (w : World) (b : Beliefs) (ref : ℕ) (g : AccountGroup)
    → Told limit rooms w b
    → group_at w.manager ref ≡ some g
    → ((p : Connection)
        → lookup ℕ_discrete p.conn_id g.phones ≡ some p
        → b.target_of p.ref ≡ name (target g p))
      × ((a p : Connection)
          → lookup Text-discrete a.bridge_id g.bridges ≡ some a
          → lookup ℕ_discrete p.conn_id g.phones ≡ some p
          → b.talks a.ref p.conn_id ≡ same (target g p) (some a))
      × ((a : Connection) (id : ℕ)
          → lookup Text-discrete a.bridge_id g.bridges ≡ some a
          → lookup ℕ_discrete id g.phones ≡ none
          → b.talks a.ref id ≡ false)
peers_know limit rooms w b ref g told found =
    let k = Told-Knows limit rooms told in
    (
      λ p there. k.phones ref g p.conn_id p found there,
      λ a p here there.
          k.bridges ref g a.bridge_id a p.conn_id found here ∙ ap (λ o. talks_to g o a) there,
      λ a id here free. k.bridges ref g a.bridge_id a id found here ∙ ap (λ o. talks_to g o a) free,
    )
