-- ===== src/World/Capacity.antt =====
-- internal/relay/handler.go, group_manager.go and ratelimit.go: how much the handlers hold, under
-- every interleaving.
use sesori_relay_server.Prelude.{
  ℕ, ◌≤◌, ◌≡◌, ◌≢◌, ◌∙◌, sym, ap, subst, inl, inr, arith, false, [], ◌∷◌, Option, none, some, Text,
  Text-discrete, ℕ_discrete, length, Bool-cases, Option-cases, ◌⊎◌, ◌==◌,
}
use sesori_relay_server.Prelude.Dict.{
  Dict, Distinct, lookup, delete, lookup-delete_ne, length-delete, delete-Distinct,
}
use sesori_relay_server.AccountGroup.{Connection, AccountGroup, is_empty}
use sesori_relay_server.GroupManager.{group_at, is_empty_at, count}
use sesori_relay_server.GroupManager.Invariant.{user_at, user_of}
use sesori_relay_server.RateLimiter.{count_of}
use sesori_relay_server.RateLimiter.Slots.{held, count_of-le}
use sesori_relay_server.World.{
  Stage, admitted, checked, joining, bridge_serving, phone_serving, leaving, ending, Handler, World,
  Reach,
}
use sesori_relay_server.World.Groups.{Consistent, Reach-Consistent}
use sesori_relay_server.World.Shared.{stages, stage_of, grip, awaits}
use sesori_relay_server.World.Slots.{slots, Reach-Accounted}

-- A handler holds the registered group of each user of the map.
abbrev Held : Dict Text ℕ → Dict ℕ Handler → Type 0
Held m hs =
    (u : Text) (r : ℕ)
    → lookup Text-discrete u m ≡ some r
    → (i : ℕ) × (grip (stages hs i) ≡ some (u, r))

-- In every reachable world the limiter's count for an address is the number of handlers from this
-- address that have not ended, and it is at most the limit.
pub slots_exact :
    (limit rooms : ℕ) (w : World) (ip : Text)
    → Reach limit rooms w
    → (count_of w.limiter ip ≡ held ip (slots w.handlers)) × (count_of w.limiter ip ≤ limit)
slots_exact limit rooms w ip r =
    let a = Reach-Accounted limit rooms r in
    let le = count_of-le w.limiter ip a.counted.in_range in
    (a.counted.counts ip, subst (λ n. count_of w.limiter ip ≤ n) a.limit_kept le)

-- The holder of another user's group is another handler.
Held-delete :
    (m : Dict Text ℕ) (hs : Dict ℕ Handler) (u v : Text) (i r q : ℕ)
    → u ≢ v
    → grip (stages hs i) ≡ some (u, r)
    → (j : ℕ) × (grip (stages hs j) ≡ some (v, q))
    → (j : ℕ) × (grip (stages (delete ℕ_discrete i hs) j) ≡ some (v, q))
Held-delete m hs u v i r q ne mine (j, yours) = (
  j,
  ap (λ o. grip (stage_of o))
        (lookup-delete_ne ℕ_discrete i j hs
          (λ e. ne (same_user (sym mine ∙ ap (λ k. grip (stages hs k)) (sym e) ∙ yours))))
      ∙ yours,
)
  where
    mine' : Option (Text × ℕ)
    mine' = some (u, r)

    yours' : Option (Text × ℕ)
    yours' = some (v, q)

    same_user : mine' ≡ yours' → u ≡ v
    same_user e = ground arith

grip-lookup :
    (hs : Dict ℕ Handler) (i r : ℕ) (u : Text)
    → grip (stages hs i) ≡ some (u, r)
    → (h : Handler) × (lookup ℕ_discrete i hs ≡ some h)
grip-lookup hs i r u e = elim (Option-cases (lookup ℕ_discrete i hs)) [
  | inl n ↦ absurd (ground arith)
  | inr s ↦ s
]

-- Two users' groups are held by two handlers, so each group can be counted against a handler.
Held-length :
    (m : Dict Text ℕ) (hs : Dict ℕ Handler)
    → Distinct Text-discrete m
    → Distinct ℕ_discrete hs
    → Held m hs
    → length m ≤ length hs
unfolding lookup
Held-length [] hs d e held = omega arith
Held-length ((u, r) ∷ m) hs d e held =
    let (i, mine) = held u r (ground arith) in
    let rest : Held m (delete ℕ_discrete i hs) = λ v q l.
      Held-delete m hs u v i r q (λ same. ground (arith, ap (λ k. lookup Text-discrete k m) same))
        mine (held v q (ground (arith, ap (λ k. lookup Text-discrete k m) {x = v} {y = u}))) in
    let (h, at) = grip-lookup hs i r u mine in
    let fewer =
      Held-length m (delete ℕ_discrete i hs) d.1 (delete-Distinct ℕ_discrete i hs e) rest in
    ground (arith, length-delete ℕ_discrete i h hs at)

entry_of :
    {K : Type 0} (dec : Discrete K) (m : Dict K Connection)
    → (length m == 0) ≡ false
    → (k : K) × (c : Connection) × (lookup dec k m ≡ some c)
unfolding lookup
entry_of dec [] e = cc
entry_of dec ((k, c) ∷ m) e = (k, c, ground arith)

-- A group that is not empty has a connection.
member_of :
    (g : AccountGroup)
    → is_empty g ≡ false
    → ((k : Text) × (b : Connection) × (lookup Text-discrete k g.bridges ≡ some b))
      ⊎ ((k : ℕ) × (p : Connection) × (lookup ℕ_discrete k g.phones ≡ some p))
unfolding is_empty
member_of g e = elim (Bool-cases (length g.bridges == 0)) [
  | inl none_left ↦ inr (entry_of ℕ_discrete g.phones (ground arith))
  | inr bridges ↦ inl (entry_of Text-discrete g.bridges (ground arith))
]

awaits-holds : (o : Option Stage) (r : ℕ) → awaits o ≡ some r → (u : Text) × (grip o ≡ some (u, r))
awaits-holds none r e = cc
awaits-holds (some admitted) r e = cc
awaits-holds (some checked) r e = cc
awaits-holds (some (joining u _)) r e = (u, ground arith)
awaits-holds (some (bridge_serving _ _ _)) r e = cc
awaits-holds (some (phone_serving _ _ _)) r e = cc
awaits-holds (some (leaving u _)) r e = (u, ground arith)
awaits-holds (some ending) r e = cc

-- A registered group is held by a handler of its user.
registered-Held : (w : World) → Consistent w → Held w.manager.groups w.handlers
unfolding is_empty_at
registered-Held w c u r l = elim (Bool-cases (is_empty_at w.manager r)) [
  | inl empty ↦
      let (i, waits) = c.awaited u r l empty in
      let (v, holds) = awaits-holds (stages w.handlers i) r waits in
      (i, holds ∙ some_pair (c.holds i v r holds))
  | inr occupied ↦ elim (Option-cases (group_at w.manager r)) [
    | inl gone ↦ ground arith
    | inr (g, found) ↦ elim (member_of g (ground arith)) [
      | inl (k, b, at) ↦
          (b.ref, ap grip (c.bridges r g k b found at) ∙ some_pair (ap user_of found))
      | inr (k, p, at) ↦ (p.ref, ap grip (c.phones r g k p found at) ∙ some_pair (ap user_of found))
    ]
  ]
]
  where
    owner : user_at w.manager r ≡ some u
    owner = c.well_formed.registered u r l

    same_owner : {v : Text} → user_at w.manager r ≡ some v → v ≡ u
    same_owner e = ground (arith, owner)

    grip_of : Text → Option (Text × ℕ)
    grip_of v = some (v, r)

    some_pair : {v : Text} → user_at w.manager r ≡ some v → grip_of v ≡ grip_of u
    some_pair e = ap grip_of (same_owner e)

-- In every reachable world there are at most as many registered groups as handlers.
pub groups_bounded :
    (limit rooms : ℕ) (w : World) → Reach limit rooms w → count w.manager ≤ length w.handlers
unfolding count
groups_bounded limit rooms w r =
    let c = Reach-Consistent limit rooms r in
    Held-length w.manager.groups w.handlers c.well_formed.distinct
      (Reach-Accounted limit rooms r).distinct (registered-Held w c)
