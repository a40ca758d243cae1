-- ===== src/World/Shared/Quiet.antt =====
-- internal/relay/handler.go: steps of a handler that holds no group, and the step that gets one.
use sesori_relay_server.Prelude.{
  ℕ, ◌≡◌, ◌≢◌, refl, ap, true, arith, inl, inr, Option, none, some, Text, Text-discrete, ℕ_discrete,
}
use sesori_relay_server.Prelude.Dict.{lookup, lookup-insert}
use sesori_relay_server.AccountGroup.{Connection, AccountGroup, new_account_group}
use sesori_relay_server.GroupManager.{GroupManager, group_at, get_or_create_group, is_empty_at}
use sesori_relay_server.GroupManager.Invariant.{
  get_or_create_group_cases, with_group, with_group-group_at, with_group-IsWellFormed,
}
use sesori_relay_server.World.{
  Stage, admitted, checked, joining, bridge_serving, phone_serving, leaving, ending,
}
use sesori_relay_server.World.Shared.{Shared, update, grip, awaits}

grip-awaits : (o : Option Stage) → grip o ≡ none → awaits o ≡ none
grip-awaits none e = refl
grip-awaits (some admitted) e = refl
grip-awaits (some checked) e = refl
grip-awaits (some (joining _ _)) e = cc
grip-awaits (some (bridge_serving _ _ _)) e = refl
grip-awaits (some (phone_serving _ _ _)) e = refl
grip-awaits (some (leaving _ _)) e = cc
grip-awaits (some ending) e = refl

pub quiet-Shared :
    (m : GroupManager) (f : ℕ → Option Stage) (i : ℕ) (o : Option Stage)
    → Shared m f
    → grip (f i) ≡ none
    → grip o ≡ none
    → Shared m (update f i o)
quiet-Shared m f i o v old new = record {
  well_formed = v.well_formed;
  holds = λ j u r e. ground (arith, v.holds j u r);
  bridges = λ r g k b e found.
      ground (arith, v.bridges r g k b e found, ap grip (v.bridges r g k b e found));
  phones = λ r g k p e found.
      ground (arith, v.phones r g k p e found, ap grip (v.phones r g k p e found));
  own_bridge = λ j u r b e. ground (arith, v.own_bridge j u r b, ap grip e);
  own_phone = λ j u r p e. ground (arith, v.own_phone j u r p, ap grip e);
  registered = λ j u r p e. ground (arith, v.registered j u r p, ap grip e);
  awaited = λ u r e empty.
      let (j, waits) = v.awaited u r e empty in (j, ground (arith, grip-awaits (f i) old));
}

-- The group exists already.
joins_old-Shared :
    (m : GroupManager) (f : ℕ → Option Stage) (i : ℕ) (user_id : Text) (ref : ℕ)
    → Shared m f
    → grip (f i) ≡ none
    → lookup Text-discrete user_id m.groups ≡ some ref
    → Shared m (update f i (some (joining user_id ref)))
joins_old-Shared m f i user_id ref v old here = record {
  well_formed = v.well_formed;
  holds = λ j u r e. ground (arith, v.holds j u r, v.well_formed.registered user_id ref here);
  bridges = λ r g k b e found.
      ground (arith, v.bridges r g k b e found, ap grip (v.bridges r g k b e found));
  phones = λ r g k p e found.
      ground (arith, v.phones r g k p e found, ap grip (v.phones r g k p e found));
  own_bridge = λ j u r b e. ground (arith, v.own_bridge j u r b, ap grip e);
  own_phone = λ j u r p e. ground (arith, v.own_phone j u r p, ap grip e);
  registered = λ j u r p e. ground (arith, v.registered j u r p, ap grip e);
  awaited = λ u r e empty.
      let (j, waits) = v.awaited u r e empty in (j, ground (arith, grip-awaits (f i) old));
}

-- The new group has no connection.
old_bridges :
    (m : GroupManager) (user_id : Text) (r : ℕ) (g : AccountGroup) (k : Text) (b : Connection)
    → group_at (with_group m user_id) r ≡ some g
    → lookup Text-discrete k g.bridges ≡ some b
    → group_at m r ≡ some g
unfolding new_account_group lookup
old_bridges m user_id r g k b e found = ground (arith, with_group-group_at m user_id r)

old_phones :
    (m : GroupManager) (user_id : Text) (r : ℕ) (g : AccountGroup) (k : ℕ) (p : Connection)
    → group_at (with_group m user_id) r ≡ some g
    → lookup ℕ_discrete k g.phones ≡ some p
    → group_at m r ≡ some g
unfolding new_account_group lookup
old_phones m user_id r g k p e found = ground (arith, with_group-group_at m user_id r)

-- The group is made for the user.
joins_new-Shared :
    (m : GroupManager) (f : ℕ → Option Stage) (i : ℕ) (user_id : Text)
    → Shared m f
    → grip (f i) ≡ none
    → Shared (with_group m user_id) (update f i (some (joining user_id m.next_ref)))
unfolding new_account_group is_empty_at lookup
joins_new-Shared m f i user_id v old =
    let unused : group_at m m.next_ref ≡ none = v.well_formed.below m.next_ref (omega arith) in
    record {
      well_formed = with_group-IsWellFormed m user_id v.well_formed;
      holds = λ j u r e. ground (arith, v.holds j u r, with_group-group_at m user_id r);
      bridges = λ r g k b e found.
          let served = v.bridges r g k b (old_bridges m user_id r g k b e found) found in
          ground (arith, served, ap grip served);
      phones = λ r g k p e found.
          let served = v.phones r g k p (old_phones m user_id r g k p e found) found in
          ground (arith, served, ap grip served);
      own_bridge = λ j u r b e. ground (arith, v.own_bridge j u r b, ap grip e);
      own_phone = λ j u r p e. ground (arith, v.own_phone j u r p, ap grip e);
      registered = λ j u r p e.
          ground (arith, v.registered j u r p, ap grip e, with_group-group_at m user_id r);
      awaited = λ u r e empty. elim (Text-discrete u user_id) [
        | yes same ↦ (i, ground (arith, lookup-insert Text-discrete user_id u m.next_ref m.groups))
        | no other ↦
            let old_entry : lookup Text-discrete u m.groups ≡ some r =
              ground (arith, lookup-insert Text-discrete user_id u m.next_ref m.groups) in
            let apart : r ≢ m.next_ref =
              λ e. ground (arith, v.well_formed.registered u r old_entry) in
            let (j, waits) =
              v.awaited u r old_entry (ground (arith, with_group-group_at m user_id r)) in
            (j, ground (arith, grip-awaits (f i) old))
      ];
    }

pub get_group-Shared :
    (m : GroupManager) (f : ℕ → Option Stage) (i : ℕ) (user_id : Text)
    → Shared m f
    → grip (f i) ≡ none
    → let (m', ref) = get_or_create_group m user_id in
      Shared m' (update f i (some (joining user_id ref)))
get_group-Shared m f i user_id v old = elim (get_or_create_group_cases m user_id) [
  | inl (ref, here, e) ↦ rw e (joins_old-Shared m f i user_id ref v old here)
  | inr (_, e) ↦ rw e (joins_new-Shared m f i user_id v old)
]

pub awaits-grip :
    (o : Option Stage) (u : Text) (r x : ℕ) → grip o ≡ some (u, r) → awaits o ≡ some x → x ≡ r
awaits-grip none u r x e h = cc
awaits-grip (some admitted) u r x e h = cc
awaits-grip (some checked) u r x e h = cc
awaits-grip (some (joining _ _)) u r x e h = cc
awaits-grip (some (bridge_serving _ _ _)) u r x e h = cc
awaits-grip (some (phone_serving _ _ _)) u r x e h = cc
awaits-grip (some (leaving _ _)) u r x e h = cc
awaits-grip (some ending) u r x e h = cc

-- A handler without a connection in its group lets go of it, where the group is not both registered
-- and empty.
pub ending-Shared :
    (m : GroupManager) (f : ℕ → Option Stage) (i : ℕ) (u : Text) (r : ℕ)
    → Shared m f
    → grip (f i) ≡ some (u, r)
    → awaits (f i) ≡ some r
    → ((w : Text) → lookup Text-discrete w m.groups ≡ some r → is_empty_at m r ≡ true → ⊥)
    → Shared m (update f i (some ending))
ending-Shared m f i u r v holds waits safe = record {
  well_formed = v.well_formed;
  holds = λ j w x e. ground (arith, v.holds j w x);
  bridges = λ x g k b e found.
      let served = v.bridges x g k b e found in ground (arith, served, ap awaits served);
  phones = λ x g k p e found.
      let served = v.phones x g k p e found in ground (arith, served, ap awaits served);
  own_bridge = λ j w x b e. ground (arith, v.own_bridge j w x b);
  own_phone = λ j w x p e. ground (arith, v.own_phone j w x p);
  registered = λ j w x p e. ground (arith, v.registered j w x p);
  awaited = λ w x e empty.
      let (j, found) = v.awaited w x e empty in
      (j, ground (arith, safe w, awaits-grip (f i) u r x holds));
}
