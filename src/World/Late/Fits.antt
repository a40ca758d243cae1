-- ===== src/World/Late/Fits.antt =====
-- internal/relay/handler.go: what a handler starts after an access, and what was pending before it.
use sesori_relay_server.Prelude.{
  ℕ, ◌≡◌, ◌∙◌, refl, ap, subst, Bool, List, none, some, Text, Text-discrete, ℕ_discrete, All,
}
use sesori_relay_server.Prelude.Dict.{lookup}
use sesori_relay_server.AccountGroup.{Connection, AccountGroup, all_phones, remove_phone}
use sesori_relay_server.Announce.{announce_presence}
use sesori_relay_server.GroupManager.{group_at}
use sesori_relay_server.Protocol.Messages.{Json}
use sesori_relay_server.Handler.Bridge.{BridgeSession, bridge_message, new_bridge_session}
use sesori_relay_server.Handler.Effects.{notices, Incoming}
use sesori_relay_server.Handler.Phone.{phone_opened, phone_closed, phone_message}
use sesori_relay_server.World.{
  Stage, checked, joining, bridge_serving, phone_serving, World, Step, arrives, checks, gets_group,
  adds_bridge, adds_phone, removes_bridge, removes_phone, collects, ends,
}
use sesori_relay_server.World.Groups.{At-stage, Consistent}
use sesori_relay_server.World.Isolation.{held_user}
use sesori_relay_server.World.Late.{
  Owners, owners_after, Task, for_user, starts, NewAddress, Circumstances, closing_session,
  bridge_opening, bridge_closing,
}
use sesori_relay_server.World.Late.Owners.{
  Owner, Owned, Of, Fits, for_user-Fits, with_owner-Fits, no_owner-IsUnused,
}
use sesori_relay_server.World.Late.Starts.{
  presence-Concerns, bridge_opening-Concerns, bridge_closing-Concerns, phone_opened-Concerns,
  phone_closed-target, bridge_message-Concerns, phone_message-Concerns,
}
use sesori_relay_server.World.Shared.{stages, grip}

module _ (o : Owners) (w : World) (c : Consistent w) (v : Owned o (stages w.handlers)) (i : ℕ)
    (s : Stage) (u : Text) (r : ℕ) (g : AccountGroup) (stage : stages w.handlers i ≡ some s)
    (holds : grip (some s) ≡ some (u, r)) (found : group_at w.manager r ≡ some g) where
  same_user : g.user_id ≡ u
  same_user = held_user w i u r g c (ap grip stage ∙ holds) found

  own_bridge : (k : Text) (b : Connection) → lookup Text-discrete k g.bridges ≡ some b → Of o u b
  own_bridge k b e =
      subst (λ x. Of o x b) same_user
        (subst (λ x. Owner x (o b.ref)) (c.bridges r g k b found e) (v b.ref))

  own_phone : (k : ℕ) (p : Connection) → lookup ℕ_discrete k g.phones ≡ some p → Of o u p
  own_phone k p e =
      subst (λ x. Of o x p) same_user
        (subst (λ x. Owner x (o p.ref)) (c.phones r g k p found e) (v p.ref))

  own : Owner (some s) (o i)
  own = subst (λ x. Owner x (o i)) stage (v i)

  pub presence-Fits :
      (bridge_id : Text) (online : Bool)
      → All (Fits o) (for_user u (notices (announce_presence (all_phones g) bridge_id online)))
  presence-Fits id online =
      for_user-Fits o u (notices (announce_presence (all_phones g) id online)) (
        presence-Concerns (Of o u) u g (c.well_formed.valid r g found) own_bridge own_phone id
          online)

  pub bridge_message-Fits :
      (json : Json) (session : BridgeSession) (now : Text) (m : Incoming)
      → session.user_id ≡ u
      → All (Fits o) (for_user u (bridge_message json g session now m).1)
  bridge_message-Fits json session now m e =
      for_user-Fits o u (bridge_message json g session now m).1 (
        bridge_message-Concerns (Of o u) u g (c.well_formed.valid r g found) own_bridge own_phone
          json session now m e)

  pub phone_message-Fits :
      (json : Json) (phone : Connection) (nb : Bool) (now : Text) (m : Incoming)
      → All (Fits o) (for_user u (phone_message json g phone nb u now m))
  phone_message-Fits json phone nb now m =
      for_user-Fits o u (phone_message json g phone nb u now m) (
        phone_message-Concerns (Of o u) u g (c.well_formed.valid r g found) own_bridge own_phone
          json phone nb now m)

module _ (o : Owners) (w : World) (c : Consistent w) (v : Owned o (stages w.handlers)) where
  pub started-Fits :
      {t : World} (x : Circumstances) (st : Step w t) → All (Fits (owners_after o st)) (starts x st)
  unfolding owners_after starts new_bridge_session
  started-Fits x (arrives i ip new e) = tt
  started-Fits x (checks i h at s e) = tt
  started-Fits x (gets_group i h u at s e) = tt
  started-Fits x (adds_bridge i h u r g b at s found mine e) =
      let s0 = joining u r in
      let stage = At-stage w i h s0 at s in
      let session = new_bridge_session b u x.policy x.has_notifications in
      for_user-Fits o u (bridge_opening g session x) (
        bridge_opening-Concerns (Of o u) u g (c.well_formed.valid r g found)
          (own_bridge o w c v i s0 u r g stage refl found)
          (own_phone o w c v i s0 u r g stage refl found) session x
          (ap o mine ∙ own o w c v i s0 u r g stage refl found) refl)
  started-Fits x (adds_phone i h u r g p a at s found mine result e) =
      let s0 = joining u r in
      let stage = At-stage w i h s0 at s in
      let is_own = ap o mine ∙ own o w c v i s0 u r g stage refl found in
      for_user-Fits o u (phone_opened a.1) (
        phone_opened-Concerns (Of o u) u g (c.well_formed.valid r g found)
          (own_bridge o w c v i s0 u r g stage refl found)
          (own_phone o w c v i s0 u r g stage refl found) p a (λ id. is_own) is_own result)
  started-Fits x (removes_bridge i h u r g b at s found e) =
      let s0 = bridge_serving u r b in
      let stage = At-stage w i h s0 at s in
      let session = closing_session b u x in
      for_user-Fits o u (bridge_closing g session x) (
        bridge_closing-Concerns (Of o u) u g (c.well_formed.valid r g found)
          (own_bridge o w c v i s0 u r g stage refl found)
          (own_phone o w c v i s0 u r g stage refl found) session x
          (ap o (c.own_bridge i u r b stage) ∙ own o w c v i s0 u r g stage refl found) refl)
  started-Fits x (removes_phone i h u r g p at s found e) =
      let s0 = phone_serving u r p in
      let stage = At-stage w i h s0 at s in
      for_user-Fits o u (phone_closed p (remove_phone g p).1) (
        phone_closed-target (Of o u) u g (c.well_formed.valid r g found)
          (own_bridge o w c v i s0 u r g stage refl found)
          (own_phone o w c v i s0 u r g stage refl found) p
          (ap o (c.own_phone i u r p stage) ∙ own o w c v i s0 u r g stage refl found))
  started-Fits x (collects i h u r at s e) = tt
  started-Fits x (ends i h at may e) = tt

  -- What was pending still fits, whoever owns the addresses after the step.
  pub pending-Fits :
      {t : World} (st : Step w t) (ts : List Task)
      → NewAddress ts st
      → All (Fits o) ts
      → All (Fits (owners_after o st)) ts
  unfolding owners_after
  pending-Fits (arrives i ip new e) ts unused a = with_owner-Fits o i none ts unused a
  pending-Fits (checks i h at s e) ts unused a = a
  pending-Fits (gets_group i h u at s e) ts unused a =
      let nobody = subst (λ x. Owner x (o i)) (At-stage w i h checked at s) (v i) in
      with_owner-Fits o i (some u) ts (no_owner-IsUnused o i ts nobody a) a
  pending-Fits (adds_bridge i h u r g b at s found mine e) ts unused a = a
  pending-Fits (adds_phone i h u r g p r' at s found mine result e) ts unused a = a
  pending-Fits (removes_bridge i h u r g b at s found e) ts unused a = a
  pending-Fits (removes_phone i h u r g p at s found e) ts unused a = a
  pending-Fits (collects i h u r at s e) ts unused a = a
  pending-Fits (ends i h at may e) ts unused a = a
