-- ===== src/World/Told/Knows.antt =====
-- internal/relay/handler.go: what it means that every connection knows its peers, and the steps that
-- write a group back.
use sesori_relay_server.Prelude.{
  ℕ, ◌≡◌, ◌≢◌, ◌∙◌, ap, arith, Bool, true, false, List, Option, none, some, Text, Text-discrete,
  ℕ_discrete,
}
use sesori_relay_server.Prelude.Dict.{lookup}
use sesori_relay_server.AccountGroup.{Connection, AccountGroup, same, target}
use sesori_relay_server.Announce.{Notice}
use sesori_relay_server.Announce.Views.{phone_view, bridge_view, name}
use sesori_relay_server.GroupManager.{GroupManager, group_at, set_group}
use sesori_relay_server.World.{
  Stage, admitted, checked, joining, bridge_serving, phone_serving, leaving, ending,
}
use sesori_relay_server.World.Shared.{Shared, grip, update}
use sesori_relay_server.World.Shared.Store.{set_group-group_at}
use sesori_relay_server.World.Told.{Beliefs, hear}

abbrev pub talks_to : AccountGroup → Option Connection → Connection → Bool
talks_to g none b = false
talks_to g (some p) b = same (target g p) (some b)

-- Whether the phone with the connection id talks to the bridge.
abbrev pub talking : AccountGroup → ℕ → Connection → Bool
talking g id b = talks_to g (lookup ℕ_discrete id g.phones) b

-- The handler has not registered its connection yet.
abbrev pub waits : Option Stage → Bool
waits none = false
waits (some admitted) = true
waits (some checked) = true
waits (some (joining _ _)) = true
waits (some (bridge_serving _ _ _)) = false
waits (some (phone_serving _ _ _)) = false
waits (some (leaving _ _)) = false
waits (some ending) = false

-- The group that the handler serves its connection in.
abbrev pub member : Option Stage → Option ℕ
member none = none
member (some admitted) = none
member (some checked) = none
member (some (joining _ _)) = none
member (some (bridge_serving _ r _)) = some r
member (some (phone_serving _ r _)) = some r
member (some (leaving _ _)) = none
member (some ending) = none

pub record Knows (m : GroupManager) (f : ℕ → Option Stage) (b : Beliefs) : Type 0 where
  pub phones :
      (r : ℕ) (g : AccountGroup) (id : ℕ) (p : Connection)
      → group_at m r ≡ some g
      → lookup ℕ_discrete id g.phones ≡ some p
      → b.target_of p.ref ≡ name (target g p)
  pub bridges :
      (r : ℕ) (g : AccountGroup) (k : Text) (c : Connection) (id : ℕ)
      → group_at m r ≡ some g
      → lookup Text-discrete k g.bridges ≡ some c
      → b.talks c.ref id ≡ talking g id c
  pub waiting : (i id : ℕ) → waits (f i) ≡ true → b.talks i id ≡ false

waits-member : (o : Option Stage) (r : ℕ) → waits o ≡ true → member o ≢ some r
waits-member none r e = cc
waits-member (some admitted) r e = λ h. cc
waits-member (some checked) r e = λ h. cc
waits-member (some (joining _ _)) r e = λ h. cc
waits-member (some (bridge_serving _ _ _)) r e = cc
waits-member (some (phone_serving _ _ _)) r e = cc
waits-member (some (leaving _ _)) r e = cc
waits-member (some ending) r e = cc

-- The notices `ns` of a handler at `i`, which turns the group `g` at `r` into `g'`: they inform the
-- connections of `g'`, and they go to no other connection.
pub record Informs (f : ℕ → Option Stage) (b : Beliefs) (i r : ℕ) (g' : AccountGroup)
    (ns : List Notice) : Type 0 where
  pub phones :
      (id : ℕ) (p : Connection)
      → lookup ℕ_discrete id g'.phones ≡ some p
      → phone_view p.ref (b.target_of p.ref) ns ≡ name (target g' p)
  pub bridges :
      (k : Text) (c : Connection) (id : ℕ)
      → lookup Text-discrete k g'.bridges ≡ some c
      → bridge_view c.ref id (b.talks c.ref id) ns ≡ talking g' id c
  pub not_phones : (j : ℕ) (v : Option Text) → j ≢ i → member (f j) ≢ some r → phone_view j v ns ≡ v
  pub not_bridges :
      (j id : ℕ) (v : Bool) → j ≢ i → member (f j) ≢ some r → bridge_view j id v ns ≡ v

module _ (m : GroupManager) (f : ℕ → Option Stage) (b : Beliefs) (i : ℕ) (u : Text) (r : ℕ)
    (g' : AccountGroup) (s : Stage) (ns : List Notice) (v : Shared m f) (k : Knows m f b)
    (holds : grip (f i) ≡ some (u, r)) where
  pub store-Knows :
      waits (some s) ≡ false
      → Informs f b i r g' ns
      → Knows (set_group m r g') (update f i (some s)) (hear b ns)
  unfolding hear
  store-Knows busy n = record {
    phones = λ x h id p e found. elim (ℕ_discrete x r) [
      | yes here ↦
          let is : g' ≡ h = ground (arith, set_group-group_at m r x g') in
          n.phones id p (ap (λ a. lookup ℕ_discrete id a.phones) is ∙ found)
          ∙ ap (λ a. name (target a p)) is
      | no other ↦
          let e' : group_at m x ≡ some h = ground (arith, set_group-group_at m r x g') in
          let served = v.phones x h id p e' found in
          n.not_phones p.ref (b.target_of p.ref) (λ q. ground (arith, ap (λ a. grip (f a)) q))
            (λ q. ground arith)
          ∙ k.phones x h id p e' found
    ];
    bridges = λ x h key c id e found. elim (ℕ_discrete x r) [
      | yes here ↦
          let is : g' ≡ h = ground (arith, set_group-group_at m r x g') in
          n.bridges key c id (ap (λ a. lookup Text-discrete key a.bridges) is ∙ found)
          ∙ ap (λ a. talking a id c) is
      | no other ↦
          let e' : group_at m x ≡ some h = ground (arith, set_group-group_at m r x g') in
          let served = v.bridges x h key c e' found in
          n.not_bridges c.ref id (b.talks c.ref id) (λ q. ground (arith, ap (λ a. grip (f a)) q))
            (λ q. ground arith)
          ∙ k.bridges x h key c id e' found
    ];
    waiting = λ j id w. elim (ℕ_discrete j i) [
      | yes own ↦ absurd (ground arith)
      | no other ↦
          let w' : waits (f j) ≡ true = ground arith in
          n.not_bridges j id (b.talks j id) other (waits-member (f j) r w') ∙ k.waiting j id w'
    ];
  }
