-- ===== src/World/Told/Bridges.antt =====
-- internal/relay/handler.go: the notices of a change of the bridges of a group, among all connections.
use sesori_relay_server.Prelude.{
  ℕ, ◌≡◌, ◌≢◌, ◌⊎◌, ◌∙◌, refl, sym, ap, subst, inl, inr, arith, Bool, false, List, [], ◌∷◌, Option,
  some, Text-discrete, ℕ_discrete, Option-cases,
}
use sesori_relay_server.Prelude.Dict.{lookup, Entries-lookup}
use sesori_relay_server.AccountGroup.{
  Connection, AccountGroup, same, target, change_of, changes_of, targets_of, still_connected,
  all_phones,
}
use sesori_relay_server.AccountGroup.Default.{HasKey}
use sesori_relay_server.AccountGroup.Invariant.{IsValid, HasId}
use sesori_relay_server.AccountGroup.Routing.{Within, Within-lookup, target-lookup}
use sesori_relay_server.Announce.{
  announce_target_changes, announce_next, announce_change, write_control,
}
use sesori_relay_server.Announce.Bridges.{
  values-DistinctIds, Coherent-StaysCurrent, notices-absent as bridge-absent,
  notices-present as bridge-present,
}
use sesori_relay_server.Announce.Phones.{
  DistinctRefs, Coherent, Coherent-SameTargets, round, announce-rounds, notices,
  notices-absent as phone-absent, notices-present as phone-present,
}
use sesori_relay_server.Announce.Views.{phone_view, bridge_view, bridge_view-append, name}
use sesori_relay_server.World.{Stage}
use sesori_relay_server.World.Told.{Beliefs}
use sesori_relay_server.World.Told.Knows.{talks_to, talking, member, Informs}

-- The target is no connection at the address.
abbrev Elsewhere : AccountGroup → Connection → ℕ → Type 0
Elsewhere g q ref = (a : Connection) → target g q ≡ some a → a.ref ≢ ref

round_away :
    (g g' : AccountGroup) (q : Connection) (ref id : ℕ) (v : Bool)
    → Elsewhere g q ref
    → Elsewhere g' q ref
    → bridge_view ref id v (round g' q (target g q)) ≡ v
unfolding round change_of announce_change announce_next write_control bridge_view still_connected
round_away g g' q ref id v h h' = elim (Option-cases (target g q)) [
  | inl e ↦ elim (Option-cases (target g' q)) [
    | inl e' ↦ ground arith
    | inr (a', e') ↦ ground (arith, h' a' e')
  ]
  | inr (a, e) ↦ elim (Option-cases (target g' q)) [
    | inl e' ↦ ground (arith, h a e)
    | inr (a', e') ↦ ground (arith, h a e, h' a' e')
  ]
]

-- The notices of a change go to the phones and to their targets before and after it.
notices_away :
    (g g' : AccountGroup) (ref id : ℕ) (v : Bool) (ps : List Connection)
    → ((q : Connection) → Elsewhere g q ref)
    → ((q : Connection) → Elsewhere g' q ref)
    → bridge_view ref id v (notices g g' ps) ≡ v
unfolding targets_of changes_of announce_target_changes bridge_view
notices_away g g' ref id v [] h h' = refl
notices_away g g' ref id v (q ∷ ps) h h' =
    ap (bridge_view ref id v) (announce-rounds g' q (target g q) (targets_of g ps))
    ∙ bridge_view-append ref id v (round g' q (target g q)) (notices g g' ps)
    ∙ ap (λ w. bridge_view ref id w (notices g g' ps)) (round_away g g' q ref id v (h q) (h' q))
    ∙ notices_away g g' ref id v ps h h'

-- `g` becomes `g'`: its bridges are those of `g`, and perhaps the one of the handler at `i`.
pub record Rebridges (f : ℕ → Option Stage) (b : Beliefs) (i r : ℕ) (g g' : AccountGroup)
    : Type 0 where
  pub valid : IsValid g
  pub valid_after : IsValid g'
  pub same_phones : g'.phones ≡ g.phones
  pub coherent : Coherent g.bridges g'.bridges
  pub distinct : DistinctRefs (all_phones g)
  pub told :
      (p : Connection)
      → lookup ℕ_discrete p.conn_id g.phones ≡ some p
      → b.target_of p.ref ≡ name (target g p)
  pub knew :
      (a : Connection) (id : ℕ)
      → lookup Text-discrete a.bridge_id g'.bridges ≡ some a
      → b.talks a.ref id ≡ talking g id a
  pub phones_here :
      (p : Connection) → lookup ℕ_discrete p.conn_id g.phones ≡ some p → member (f p.ref) ≡ some r
  pub bridges_here :
      (a : Connection)
      → lookup Text-discrete a.bridge_id g.bridges ≡ some a
      → member (f a.ref) ≡ some r
  pub new_here :
      (a : Connection)
      → lookup Text-discrete a.bridge_id g'.bridges ≡ some a
      → (a.ref ≡ i) ⊎ (member (f a.ref) ≡ some r)

module _ (f : ℕ → Option Stage) (b : Beliefs) (i r : ℕ) (g g' : AccountGroup)
    (c : Rebridges f b i r g g') where
  is_known :
      (p : Connection) → Within p (all_phones g) → lookup ℕ_discrete p.conn_id g.phones ≡ some p
  unfolding all_phones
  is_known p = (Within-lookup p g.phones c.valid.distinct_phones c.valid.phone_ids).0

  is_listed :
      (p : Connection) → lookup ℕ_discrete p.conn_id g.phones ≡ some p → Within p (all_phones g)
  unfolding all_phones
  is_listed p = (Within-lookup p g.phones c.valid.distinct_phones c.valid.phone_ids).1

  -- A phone of the new group, from its entry.
  own_id :
      (id : ℕ) (p : Connection)
      → lookup ℕ_discrete id g.phones ≡ some p
      → (p.conn_id ≡ id) × (lookup ℕ_discrete p.conn_id g.phones ≡ some p)
  own_id id p e =
      let key = Entries-lookup ℕ_discrete HasId id p g.phones c.valid.phone_ids e in
      (key.0, ap (λ k. lookup ℕ_discrete k g.phones) key.0 ∙ e)

  informed_phone :
      (id : ℕ) (p : Connection)
      → lookup ℕ_discrete id g'.phones ≡ some p
      → phone_view p.ref (b.target_of p.ref) (notices g g' (all_phones g)) ≡ name (target g' p)
  informed_phone id p e =
      let (_, at) = own_id id p (ap (λ m. lookup ℕ_discrete id m) (sym c.same_phones) ∙ e) in
      ap (λ x. phone_view p.ref x (notices g g' (all_phones g))) (c.told p at)
      ∙ phone-present g g' p (all_phones g) (is_listed p at) c.distinct
          (Coherent-SameTargets g g' p c.valid c.valid_after c.coherent)

  informed_bridge :
      (a : Connection) (id : ℕ)
      → lookup Text-discrete a.bridge_id g'.bridges ≡ some a
      → bridge_view a.ref id (b.talks a.ref id) (notices g g' (all_phones g)) ≡ talking g' id a
  unfolding all_phones
  informed_bridge a id e = elim (Option-cases (lookup ℕ_discrete id g.phones)) [
    | inl free ↦
        ap (λ x. bridge_view a.ref id x (notices g g' (all_phones g)))
          (c.knew a id e ∙ ap (λ o. talks_to g o a) free)
        ∙ bridge-absent g g' a.ref id false (all_phones g) (λ q w is_id.
          let at = is_known q w in ground (arith, ap (λ k. lookup ℕ_discrete k g.phones) is_id))
        ∙ sym (ap (λ o. talks_to g' o a) (after_change ∙ free))
    | inr (p, found) ↦
        let (is_id, at) = own_id id p found in
        ap (λ x. bridge_view a.ref id x (notices g g' (all_phones g)))
          (c.knew a id e ∙ ap (λ o. talks_to g o a) found)
        ∙ subst
            (λ k.
              bridge_view a.ref k (same (target g p) (some a)) (notices g g' (all_phones g))
              ≡ same (target g' p) (some a))
            is_id
            (bridge-present g g' p a (all_phones g) (is_listed p at)
              (values-DistinctIds g.phones c.valid.distinct_phones c.valid.phone_ids)
              (Coherent-StaysCurrent g g' p a c.valid c.coherent e))
        ∙ sym (ap (λ o. talks_to g' o a) (after_change ∙ found))
  ]
    where
      after_change : lookup ℕ_discrete id g'.phones ≡ lookup ℕ_discrete id g.phones
      after_change = ap (λ m. lookup ℕ_discrete id m) c.same_phones

  pub rebridged-Informs : Informs f b i r g' (notices g g' (all_phones g))
  rebridged-Informs = record {
    phones = informed_phone;
    bridges = λ k a id e.
        let key = Entries-lookup Text-discrete HasKey k a g'.bridges c.valid_after.bridge_keys e in
        informed_bridge a id (ap (λ j. lookup Text-discrete j g'.bridges) key ∙ e);
    not_phones = λ j v ne out.
        phone-absent g g' j v (all_phones g)
          (λ q w at. out (sym (ap (λ x. member (f x)) at) ∙ c.phones_here q (is_known q w)));
    not_bridges = λ j id v ne out.
        notices_away g g' j id v (all_phones g)
          (λ q a e at.
            out
              (sym (ap (λ x. member (f x)) at) ∙ c.bridges_here a (target-lookup g q a c.valid e)))
          (λ q a e at. elim (c.new_here a (target-lookup g' q a c.valid_after e)) [
            | inl own ↦ ne (sym at ∙ own)
            | inr here ↦ out (sym (ap (λ x. member (f x)) at) ∙ here)
          ]);
  }
