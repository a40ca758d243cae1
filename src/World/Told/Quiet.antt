-- ===== src/World/Told/Quiet.antt =====
-- internal/relay/handler.go: the steps after which a handler writes no notice.
use sesori_relay_server.Prelude.{
  ℕ, ◌≡◌, ◌≢◌, ◌∙◌, refl, sym, ap, subst, inl, inr, arith, Bool, true, false, List, [], ◌∷◌, ◌++◌,
  Option, none, some, Text, Text-discrete, ℕ_discrete, Bool-cases,
}
use sesori_relay_server.Prelude.Dict.{Dict, lookup, lookup-nil}
use sesori_relay_server.AccountGroup.{Connection, new_account_group}
use sesori_relay_server.Announce.Views.{
  phone_view, bridge_view, phone_view-append, bridge_view-append,
}
use sesori_relay_server.Announce.{Notice, announce_presence, write_control}
use sesori_relay_server.GroupManager.{
  GroupManager, group_at, get_or_create_group, remove_group_if_empty,
}
use sesori_relay_server.GroupManager.Invariant.{
  with_group, with_group-group_at, get_or_create_group_cases, remove_group_if_empty_cases,
}
use sesori_relay_server.RateLimiter.{allow_connection}
use sesori_relay_server.World.{
  Stage, admitted, joining, ending, Handler, World, arrive, enter, at_stage,
}
use sesori_relay_server.World.Groups.{Consistent}
use sesori_relay_server.World.Shared.{Shared, stages, stage_of, update, stages-insert}
use sesori_relay_server.World.Told.{Beliefs, forget, hear}
use sesori_relay_server.World.Told.Knows.{Knows, waits}

no_entry :
    {K : Type 0} (dec : Discrete K) (k : K) (c : Connection) (m : Dict K Connection)
    → m ≡ []
    → lookup dec k m ≢ some c
no_entry dec k c m e there =
    let nothing = sym (lookup-nil dec k) ∙ ap (λ x. lookup dec k x) (sym e) ∙ there in cc

module _ (m : GroupManager) (f : ℕ → Option Stage) (b : Beliefs) (i : ℕ) (k : Knows m f b) where
  -- A handler goes on, and writes nothing.
  pub quiet-Knows :
      (o : Option Stage)
      → ((id : ℕ) → waits o ≡ true → b.talks i id ≡ false)
      → Knows m (update f i o) b
  quiet-Knows o h = record {
    phones = k.phones;
    bridges = k.bridges;
    waiting = λ j id w. elim (ℕ_discrete j i) [
      | yes own ↦ subst (λ x. b.talks x id ≡ false) (sym own) (h id (ground arith))
      | no other ↦ k.waiting j id (ground arith)
    ];
  }

  -- Only the map of the groups changes.
  groups-Knows : (n : GroupManager) → ((r : ℕ) → group_at n r ≡ group_at m r) → Knows n f b
  groups-Knows n same_groups = record {
    phones = λ r g id p e. k.phones r g id p (sym (same_groups r) ∙ e);
    bridges = λ r g key c id e. k.bridges r g key c id (sym (same_groups r) ∙ e);
    waiting = k.waiting;
  }

  -- A new group has no connection.
  with_group-Knows : (u : Text) → Knows (with_group m u) f b
  unfolding new_account_group
  with_group-Knows u = record {
    phones = λ r g id p e there. elim (ℕ_discrete r m.next_ref) [
      | yes new ↦
          let is : new_account_group u ≡ g = ground (arith, with_group-group_at m u r) in
          absurd (no_entry ℕ_discrete id p g.phones (ap (λ x. x.phones) (sym is)) there)
      | no old ↦ k.phones r g id p (ground (arith, with_group-group_at m u r)) there
    ];
    bridges = λ r g key c id e there. elim (ℕ_discrete r m.next_ref) [
      | yes new ↦
          let is : new_account_group u ≡ g = ground (arith, with_group-group_at m u r) in
          absurd (no_entry Text-discrete key c g.bridges (ap (λ x. x.bridges) (sym is)) there)
      | no old ↦ k.bridges r g key c id (ground (arith, with_group-group_at m u r)) there
    ];
    waiting = k.waiting;
  }

  -- No connection is registered at the address of one that has just come.
  forget-Knows : Shared m f → f i ≡ none → Knows m f (forget b i)
  unfolding forget
  forget-Knows v new = record {
    phones = λ r g id p e there.
        let served = v.phones r g id p e there in
        ground (arith, k.phones r g id p e there, ap f {x = p.ref} {y = i});
    bridges = λ r g key c id e there.
        let served = v.bridges r g key c e there in
        ground (arith, k.bridges r g key c id e there, ap f {x = c.ref} {y = i});
    waiting = λ j id w. ground (arith, k.waiting j id w);
  }

abbrev pub KnowsIn : World → Beliefs → Type 0
KnowsIn w b = Knows w.manager (stages w.handlers) b

-- The handlers after a move, as stages.
pub entered :
    (w : World) (b : Beliefs) (m : GroupManager) (i : ℕ) (h : Handler) (s : Stage)
    → Knows m (update (stages w.handlers) i (some s)) b
    → KnowsIn (enter (record w { manager = m }) i (at_stage h s)) b
entered w b m i h s v = subst (λ f. Knows m f b) (sym (stages-insert i (at_stage h s) w.handlers)) v

pub arrive-Knows :
    (w : World) (b : Beliefs) (i : ℕ) (ip : Text)
    → Consistent w
    → KnowsIn w b
    → lookup ℕ_discrete i w.handlers ≡ none
    → KnowsIn (arrive w i ip) (forget b i)
unfolding arrive forget
arrive-Knows w b i ip c k new =
    let f = stages w.handlers in
    let known = forget-Knows w.manager f b i k c (ap stage_of new) in
    elim (Bool-cases (allow_connection w.limiter ip).1) [
      | inl allowed ↦
          let h : Handler = record { ip = ip; stage = admitted } in
          rw allowed (
            subst (λ x. Knows w.manager x (forget b i)) (sym (stages-insert i h w.handlers))
              (quiet-Knows w.manager f (forget b i) i known (some admitted) (λ id _. ground arith)))
      | inr refused ↦ rw refused known
    ]

pub get_group-Knows :
    (m : GroupManager) (f : ℕ → Option Stage) (b : Beliefs) (i : ℕ) (u : Text)
    → Knows m f b
    → waits (f i) ≡ true
    → Knows
        (get_or_create_group m u).0
        (update f i (some (joining u (get_or_create_group m u).1)))
        b
get_group-Knows m f b i u k w =
    quiet-Knows (get_or_create_group m u).0 f b i known
      (some (joining u (get_or_create_group m u).1)) (λ id _. k.waiting i id w)
  where
    known : Knows (get_or_create_group m u).0 f b
    known = elim (get_or_create_group_cases m u) [
      | inl (_, _, e) ↦ subst (λ r. Knows r.0 f b) (sym e) k
      | inr (_, e) ↦ subst (λ r. Knows r.0 f b) (sym e) (with_group-Knows m f b i k u)
    ]

pub collect-Knows :
    (m : GroupManager) (f : ℕ → Option Stage) (b : Beliefs) (i : ℕ) (u : Text) (r : ℕ)
    → Knows m f b
    → Knows (remove_group_if_empty m u r) (update f i (some ending)) b
unfolding group_at
collect-Knows m f b i u r k =
    quiet-Knows (remove_group_if_empty m u r) f b i known (some ending) (λ id w. absurd (cc))
  where
    known : Knows (remove_group_if_empty m u r) f b
    known = elim (remove_group_if_empty_cases m u r) [
      | inl (_, e) ↦
          groups-Knows m f b i k (remove_group_if_empty m u r) (λ x. ap (λ n. group_at n x) e)
      | inr (_, e) ↦
          groups-Knows m f b i k (remove_group_if_empty m u r) (λ x. ap (λ n. group_at n x) e)
    ]

presence-phone_view :
    (i : ℕ) (v : Option Text) (ps : List Connection) (bridge_id : Text) (online : Bool)
    → phone_view i v (announce_presence ps bridge_id online) ≡ v
unfolding phone_view announce_presence write_control
presence-phone_view i v [] bridge_id online = refl
presence-phone_view i v (p ∷ ps) bridge_id online =
    ground (arith, presence-phone_view i v ps bridge_id online)

presence-bridge_view :
    (i id : ℕ) (v : Bool) (ps : List Connection) (bridge_id : Text) (online : Bool)
    → bridge_view i id v (announce_presence ps bridge_id online) ≡ v
unfolding bridge_view announce_presence write_control
presence-bridge_view i id v [] bridge_id online = refl
presence-bridge_view i id v (p ∷ ps) bridge_id online =
    ground (arith, presence-bridge_view i id v ps bridge_id online)

-- Notices of presence change no belief.
pub hear-presence :
    (b : Beliefs) (ns : List Notice) (ps : List Connection) (bridge_id : Text) (online : Bool)
    → hear b (ns ++ announce_presence ps bridge_id online) ≡ hear b ns
unfolding hear
hear-presence b ns ps bridge_id online = λ j. record {
  target_of = λ i.
      (phone_view-append i (b.target_of i) ns (announce_presence ps bridge_id online)
          ∙ presence-phone_view i (phone_view i (b.target_of i) ns) ps bridge_id online)
        j;
  talks = λ i id.
      (bridge_view-append i id (b.talks i id) ns (announce_presence ps bridge_id online)
          ∙ presence-bridge_view i id (bridge_view i id (b.talks i id) ns) ps bridge_id online)
        j;
}
