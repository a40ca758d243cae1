-- ===== src/World/Told/Changes.antt =====
-- internal/relay/handler.go: the notices of `AddBridge` and `RemoveBridge`, among all connections.
use sesori_relay_server.Prelude.{
  ℕ, ◌≡◌, ◌∙◌, refl, sym, ap, subst, inl, inr, arith, true, false, [], some, Text, Text-discrete,
  ℕ_discrete, Option-cases,
}
use sesori_relay_server.Prelude.Dict.{lookup, lookup-insert, lookup-delete_self, lookup-delete_ne}
use sesori_relay_server.AccountGroup.{
  Connection, AccountGroup, same, target, add_bridge, remove_bridge,
}
use sesori_relay_server.AccountGroup.Invariant.{IsValid, add_bridge-IsValid, remove_bridge-IsValid}
use sesori_relay_server.AccountGroup.Methods.{
  with_bridge, without_bridge, add_bridge_cases, remove_bridge_cases,
}
use sesori_relay_server.AccountGroup.Routing.{target-lookup}
use sesori_relay_server.Announce.{announce_target_changes}
use sesori_relay_server.Announce.Phones.{Coherent-insert, Coherent-delete}
use sesori_relay_server.Announce.Views.{phone_view, bridge_view}
use sesori_relay_server.GroupManager.{group_at}
use sesori_relay_server.World.{World, joining}
use sesori_relay_server.World.Groups.{Consistent}
use sesori_relay_server.World.Informed.{phones_distinct, bridges-Coherent, joining-IsFresh}
use sesori_relay_server.World.Shared.{stages}
use sesori_relay_server.World.Told.{Beliefs}
use sesori_relay_server.World.Told.Bridges.{Rebridges, rebridged-Informs}
use sesori_relay_server.World.Told.Knows.{Knows, Informs, talks_to, talking, member, waits}

-- What is registered after a removal was registered before.
pub still_there :
    (g : AccountGroup) (d a : Connection)
    → IsValid g
    → lookup Text-discrete d.bridge_id (without_bridge g a).bridges ≡ some d
    → lookup Text-discrete d.bridge_id g.bridges ≡ some d
still_there g d a v e = elim (Text-discrete d.bridge_id a.bridge_id) [
  | yes same_id ↦
      let gone = lookup-delete_self Text-discrete a.bridge_id g.bridges v.distinct_bridges in
      absurd (ground (arith, ap (λ j. lookup Text-discrete j (without_bridge g a).bridges) same_id))
  | no other ↦ sym (lookup-delete_ne Text-discrete a.bridge_id d.bridge_id g.bridges other) ∙ e
]

module _ (w : World) (b : Beliefs) (r : ℕ) (g : AccountGroup) (c : Consistent w)
    (k : Knows w.manager (stages w.handlers) b) (found : group_at w.manager r ≡ some g) where
  phones_here :
      (p : Connection)
      → lookup ℕ_discrete p.conn_id g.phones ≡ some p
      → member (stages w.handlers p.ref) ≡ some r
  phones_here p e = ap member (c.phones r g p.conn_id p found e)

  bridges_here :
      (a : Connection)
      → lookup Text-discrete a.bridge_id g.bridges ≡ some a
      → member (stages w.handlers a.ref) ≡ some r
  bridges_here a e = ap member (c.bridges r g a.bridge_id a found e)

  -- A connection that is no bridge of the group is nobody's target.
  stranger-talking :
      (a : Connection) (id : ℕ) (u : Text)
      → stages w.handlers a.ref ≡ some (joining u r)
      → talking g id a ≡ false
  unfolding same
  stranger-talking a id u stage = elim (Option-cases (lookup ℕ_discrete id g.phones)) [
    | inl nobody ↦ ap (λ o. talks_to g o a) nobody
    | inr (p, there) ↦ elim (Option-cases (target g p)) [
      | inl e ↦ ground arith
      | inr (t, e) ↦
          let fresh = joining-IsFresh w r g c a u r stage found t in
          let at = target-lookup g p t (c.well_formed.valid r g found) e in ground (arith, fresh at)
    ]
  ]

  added-Rebridges :
      (a : Connection) (u : Text)
      → stages w.handlers a.ref ≡ some (joining u r)
      → IsValid (with_bridge g a)
      → Rebridges (stages w.handlers) b a.ref r g (with_bridge g a)
  added-Rebridges a u stage valid = record {
    valid = c.well_formed.valid r g found;
    valid_after = valid;
    same_phones = refl;
    coherent =
        Coherent-insert g.bridges a (bridges-Coherent w r g c found)
          (joining-IsFresh w r g c a u r stage found);
    distinct = phones_distinct w r g c found;
    told = λ p e. k.phones r g p.conn_id p found e;
    knew = λ d id e. elim (Text-discrete d.bridge_id a.bridge_id) [
      | yes same_id ↦
          let is : a ≡ d =
            ground (arith, lookup-insert Text-discrete a.bridge_id d.bridge_id a g.bridges) in
          subst (λ x. b.talks x.ref id ≡ talking g id x) is
            (k.waiting a.ref id (ap waits stage) ∙ sym (stranger-talking a id u stage))
      | no other ↦
          k.bridges r g d.bridge_id d id found
            (ground (arith, lookup-insert Text-discrete a.bridge_id d.bridge_id a g.bridges))
    ];
    phones_here = phones_here;
    bridges_here = bridges_here;
    new_here = λ d e. elim (Text-discrete d.bridge_id a.bridge_id) [
      | yes same_id ↦
          inl (ground (arith, lookup-insert Text-discrete a.bridge_id d.bridge_id a g.bridges))
      | no other ↦ inr (
          bridges_here d
            (ground (arith, lookup-insert Text-discrete a.bridge_id d.bridge_id a g.bridges)))
    ];
  }

  pub add_bridge-Informs :
      (a : Connection) (u : Text)
      → stages w.handlers a.ref ≡ some (joining u r)
      → (add_bridge g a).1.is_ok ≡ true
      → Informs
          (stages w.handlers)
          b
          a.ref
          r
          (add_bridge g a).0
          (announce_target_changes (add_bridge g a).1.changes)
  add_bridge-Informs a u stage ok = elim (add_bridge_cases g a) [
    | inl (_, _, refused) ↦ absurd (ground arith)
    | inr (_, added) ↦
        let valid =
          subst (λ x. IsValid x.0) added (add_bridge-IsValid g a (c.well_formed.valid r g found)) in
        subst (λ x. Informs (stages w.handlers) b a.ref r x.0 (announce_target_changes x.1.changes))
          (sym added)
          (rebridged-Informs (stages w.handlers) b a.ref r g (with_bridge g a)
            (added-Rebridges a u stage valid))
  ]

  removed-Rebridges :
      (i : ℕ) (a : Connection)
      → IsValid (without_bridge g a)
      → Rebridges (stages w.handlers) b i r g (without_bridge g a)
  removed-Rebridges i a valid =
      let v = c.well_formed.valid r g found in
      record {
        valid = v;
        valid_after = valid;
        same_phones = refl;
        coherent =
            Coherent-delete g.bridges a.bridge_id v.distinct_bridges
              (bridges-Coherent w r g c found);
        distinct = phones_distinct w r g c found;
        told = λ p e. k.phones r g p.conn_id p found e;
        knew = λ d id e. k.bridges r g d.bridge_id d id found (still_there g d a v e);
        phones_here = phones_here;
        bridges_here = bridges_here;
        new_here = λ d e. inr (bridges_here d (still_there g d a v e));
      }

  -- Nothing changes, and nothing is announced.
  unchanged-Informs : (i : ℕ) → Informs (stages w.handlers) b i r g (announce_target_changes [])
  unfolding announce_target_changes phone_view bridge_view
  unchanged-Informs i = record {
    phones = λ id p e. k.phones r g id p found e;
    bridges = λ key a id e. k.bridges r g key a id found e;
    not_phones = λ j v ne out. refl;
    not_bridges = λ j id v ne out. refl;
  }

  pub remove_bridge-Informs :
      (i : ℕ) (a : Connection)
      → Informs
          (stages w.handlers)
          b
          i
          r
          (remove_bridge g a).0
          (announce_target_changes (remove_bridge g a).2)
  remove_bridge-Informs i a = elim (remove_bridge_cases g a) [
    | inl (_, kept) ↦
        subst (λ x. Informs (stages w.handlers) b i r x.0 (announce_target_changes x.2)) (sym kept)
          (unchanged-Informs i)
    | inr (_, removed) ↦
        let valid =
          subst (λ x. IsValid x.0) removed
            (remove_bridge-IsValid g a (c.well_formed.valid r g found)) in
        subst (λ x. Informs (stages w.handlers) b i r x.0 (announce_target_changes x.2))
          (sym removed)
          (rebridged-Informs (stages w.handlers) b i r g (without_bridge g a)
            (removed-Rebridges i a valid))
  ]
