-- ===== src/World/Late/Owners.antt =====
-- internal/relay/handler.go: the owners of the connections and the stages of their handlers.
use sesori_relay_server.Prelude.{
  ℕ, ◌≡◌, ◌≢◌, ◌∙◌, refl, sym, ap, subst, inl, inr, arith, List, [], ◌∷◌, Option, none, some, Text,
  ℕ_discrete, All, Bool-cases,
}
use sesori_relay_server.Prelude.Dict.{Distinct, lookup, insert}
use sesori_relay_server.AccountGroup.{Connection}
use sesori_relay_server.GroupManager.{get_or_create_group}
use sesori_relay_server.Handler.Effects.{Effect}
use sesori_relay_server.RateLimiter.{allow_connection}
use sesori_relay_server.World.{
  Stage, admitted, checked, joining, bridge_serving, phone_serving, leaving, ending, Handler, World,
  Step, arrives, checks, gets_group, adds_bridge, adds_phone, removes_bridge, removes_phone,
  collects, ends, arrive, get_group, withdraw_bridge, withdraw_phone, collect, finish, at_stage,
}
use sesori_relay_server.World.Branches.{check_groups_cases, join_bridge_cases, join_phone_cases}
use sesori_relay_server.World.Groups.{At-stage}
use sesori_relay_server.World.Late.{
  Owners, with_owner, owners_after, Task, for_user, Concerns, IsUnused,
}
use sesori_relay_server.World.Late.Pieces.{Names}
use sesori_relay_server.World.Late.Recipients.{Concerns-both}
use sesori_relay_server.World.Late.Starts.{}
use sesori_relay_server.World.Shared.{stages, stage_of, update, stages-insert, stages-delete, grip}

-- What the stage of a handler says about the token of its connection.
abbrev pub Owner : Option Stage → Option Text → Type 0
Owner none user = Unit {0}
Owner (some admitted) user = user ≡ none
Owner (some checked) user = user ≡ none
Owner (some (joining u _)) user = user ≡ some u
Owner (some (bridge_serving u _ _)) user = user ≡ some u
Owner (some (phone_serving u _ _)) user = user ≡ some u
Owner (some (leaving u _)) user = user ≡ some u
Owner (some ending) user = Unit {0}

-- The user whose group a handler holds is the one that the token names.
pub Owner-grip :
    (s : Option Stage) (user : Option Text) (u : Text) (r : ℕ)
    → Owner s user
    → grip s ≡ some (u, r)
    → user ≡ some u
Owner-grip none user u r v e = cc
Owner-grip (some admitted) user u r v e = cc
Owner-grip (some checked) user u r v e = cc
Owner-grip (some (joining a b)) user u r v e = ground (arith, v)
Owner-grip (some (bridge_serving a b _)) user u r v e = ground (arith, v)
Owner-grip (some (phone_serving a b _)) user u r v e = ground (arith, v)
Owner-grip (some (leaving a b)) user u r v e = ground (arith, v)
Owner-grip (some ending) user u r v e = cc

abbrev pub Owned : Owners → (ℕ → Option Stage) → Type 0
Owned o f = (j : ℕ) → Owner (f j) (o j)

-- A connection of the user.
abbrev pub Of : Owners → Text → Connection → Type 0
Of o user_id c = o c.ref ≡ some user_id

-- The effect is about a connection of the task's user, or reports about this user.
abbrev pub Fits : Owners → Task → Type 0
Fits o t = Concerns (Of o t.user_id) (Names t.user_id) t.effect

update-Owned :
    (o : Owners) (f : ℕ → Option Stage) (i : ℕ) (s : Option Stage)
    → Owned o f
    → Owner s (o i)
    → Owned o (update f i s)
update-Owned o f i s v w j = elim (ℕ_discrete j i) [
  | yes same ↦ subst (λ k. Owner (update f i s k) (o k)) (sym same) (ground (arith, w))
  | no other ↦ ground (arith, v j)
]

pub for_user-Fits :
    (o : Owners) (u : Text) (es : List Effect)
    → All (Concerns (Of o u) (Names u)) es
    → All (Fits o) (for_user u es)
for_user-Fits o u [] a = tt
for_user-Fits o u (e ∷ es) a = (a.0, for_user-Fits o u es a.1)

-- A new owner at an address that nothing pending is about.
pub with_owner-Fits :
    (o : Owners) (i : ℕ) (user : Option Text) (ts : List Task)
    → IsUnused i ts
    → All (Fits o) ts
    → All (Fits (with_owner o i user)) ts
with_owner-Fits o i user [] new a = tt
with_owner-Fits o i user (t ∷ ts) new a = (
  Concerns-both (Of o t.user_id) (λ c. c.ref ≢ i) (Of (with_owner o i user) t.user_id)
      (Names t.user_id) (λ p. Unit {0}) (Names t.user_id) t.effect
      (λ c own ne. ground (arith, own, ne)) (λ p named _. named) a.0 new.0,
  with_owner-Fits o i user ts new.1 a.1,
)

-- Nothing pending is about a connection whose token was not read.
pub no_owner-IsUnused :
    (o : Owners) (i : ℕ) (ts : List Task) → o i ≡ none → All (Fits o) ts → IsUnused i ts
no_owner-IsUnused o i [] nobody a = tt
no_owner-IsUnused o i (t ∷ ts) nobody a = (
  Concerns-both (Of o t.user_id) (Of o t.user_id) (λ c. c.ref ≢ i) (Names t.user_id)
      (Names t.user_id) (λ p. Unit {0}) t.effect (λ c own _ e. ground (arith, own, ap o e))
      (λ p _ _. tt) a.0 a.0,
  no_owner-IsUnused o i ts nobody a.1,
)

-- The handlers after a move, with the owners from before.
moved :
    (o : Owners) (w t : World) (i : ℕ) (h : Handler) (s : Stage)
    → Owned o (stages w.handlers)
    → Owner (some s) (o i)
    → t.handlers ≡ insert ℕ_discrete i (at_stage h s) w.handlers
    → Owned o (stages t.handlers)
moved o w t i h s v own e =
    subst (Owned o) (sym (ap stages e ∙ stages-insert i (at_stage h s) w.handlers))
      (update-Owned o (stages w.handlers) i (some s) v own)

with_owner-Owned :
    (o : Owners) (f : ℕ → Option Stage) (i : ℕ) (s : Stage) (user : Option Text)
    → Owned o f
    → Owner (some s) user
    → Owned (with_owner o i user) (update f i (some s))
with_owner-Owned o f i s user v e j = elim (ℕ_discrete j i) [
  | yes same ↦ ground (arith, e)
  | no other ↦ ground (arith, v j)
]

arrive-Owned :
    (o : Owners) (w : World) (i : ℕ) (ip : Text)
    → lookup ℕ_discrete i w.handlers ≡ none
    → Owned o (stages w.handlers)
    → Owned (with_owner o i none) (stages (arrive w i ip).handlers)
unfolding arrive
arrive-Owned o w i ip new v = elim (Bool-cases (allow_connection w.limiter ip).1) [
  | inl allowed ↦
      let h : Handler = record { ip = ip; stage = admitted } in
      rw allowed (
        subst (Owned (with_owner o i none)) (sym (stages-insert i h w.handlers))
          (with_owner-Owned o (stages w.handlers) i admitted none v refl))
  | inr refused ↦ rw refused (λ j. elim (ℕ_discrete j i) [
    | yes same ↦
        subst (λ k. Owner (stages w.handlers k) (with_owner o i none k)) (sym same)
          (subst (λ x. Owner (stage_of x) (with_owner o i none i)) (sym new) tt)
    | no other ↦ ground (arith, v j)
  ])
]

pub Step-Owned :
    (o : Owners) {w t : World} (st : Step w t)
    → Distinct ℕ_discrete w.handlers
    → Owned o (stages w.handlers)
    → Owned (owners_after o st) (stages t.handlers)
unfolding owners_after get_group withdraw_bridge withdraw_phone collect finish
Step-Owned o {w} {t} (arrives i ip new e) d v =
    subst (λ x. Owned (with_owner o i none) (stages x.handlers)) (sym e)
      (arrive-Owned o w i ip new v)
Step-Owned o {w} {t} (checks i h at s e) d v =
    let nobody = subst (λ x. Owner x (o i)) (At-stage w i h admitted at s) (v i) in
    elim (check_groups_cases w i h) [
      | inl few ↦ moved o w t i h checked v nobody (ap (λ x. x.handlers) (e ∙ few))
      | inr many ↦ moved o w t i h ending v tt (ap (λ x. x.handlers) (e ∙ many))
    ]
Step-Owned o {w} {t} (gets_group i h u at s e) d v =
    let (m, r) = get_or_create_group w.manager u in
    subst (Owned (with_owner o i (some u)))
      (sym (ap (λ x. stages x.handlers) e ∙ stages-insert i (at_stage h (joining u r)) w.handlers))
      (with_owner-Owned o (stages w.handlers) i (joining u r) (some u) v refl)
Step-Owned o {w} {t} (adds_bridge i h u r g c at s found own e) d v =
    let mine = subst (λ x. Owner x (o i)) (At-stage w i h (joining u r) at s) (v i) in
    elim (join_bridge_cases w i h u r g c) [
      | inl (_, added) ↦
          moved o w t i h (bridge_serving u r c) v mine (ap (λ x. x.handlers) (e ∙ added))
      | inr (_, refused) ↦ moved o w t i h ending v tt (ap (λ x. x.handlers) (e ∙ refused))
    ]
Step-Owned o {w} {t} (adds_phone i h u r g c a at s found own result e) d v =
    let mine = subst (λ x. Owner x (o i)) (At-stage w i h (joining u r) at s) (v i) in
    elim (join_phone_cases w i h u r a) [
      | inl (_, added) ↦
          moved o w t i h (phone_serving u r a.1.phone) v mine (ap (λ x. x.handlers) (e ∙ added))
      | inr (_, refused) ↦ moved o w t i h ending v tt (ap (λ x. x.handlers) (e ∙ refused))
    ]
Step-Owned o {w} {t} (removes_bridge i h u r g c at s found e) d v =
    let mine = subst (λ x. Owner x (o i)) (At-stage w i h (bridge_serving u r c) at s) (v i) in
    moved o w t i h (leaving u r) v mine (ap (λ x. x.handlers) e)
Step-Owned o {w} {t} (removes_phone i h u r g c at s found e) d v =
    let mine = subst (λ x. Owner x (o i)) (At-stage w i h (phone_serving u r c) at s) (v i) in
    moved o w t i h (leaving u r) v mine (ap (λ x. x.handlers) e)
Step-Owned o {w} {t} (collects i h u r at s e) d v =
    moved o w t i h ending v tt (ap (λ x. x.handlers) e)
Step-Owned o {w} {t} (ends i h at may e) d v =
    subst (Owned o) (sym (ap (λ x. stages x.handlers) e ∙ stages-delete i w.handlers d))
      (update-Owned o (stages w.handlers) i none v tt)
