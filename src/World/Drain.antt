-- ===== src/World/Drain.antt =====
-- internal/relay/handler.go: the handlers can all come to their end, and then nothing is left.
use sesori_relay_server.Prelude.{
  ℕ, zero, suc, ◌+◌, ◌≤◌, ◌≡◌, ◌∙◌, refl, sym, ap, subst, inl, inr, arith, true, List, [], ◌∷◌,
  some, Text, ℕ_discrete, length, Option-cases,
}
use sesori_relay_server.Prelude.Dict.{Dict, lookup, lookup-insert, length-insert, length-delete}
use sesori_relay_server.AccountGroup.{Connection, AccountGroup}
use sesori_relay_server.GroupManager.{GroupManager, group_at, count}
use sesori_relay_server.RateLimiter.{count_of}
use sesori_relay_server.RateLimiter.Slots.{held}
use sesori_relay_server.World.{
  Stage, admitted, checked, joining, bridge_serving, phone_serving, leaving, ending, Handler, World,
  Step, Reach, next, adds_bridge, removes_bridge, removes_phone, collects, ends, join_bridge,
  withdraw_bridge, withdraw_phone, collect, finish, At, may_end, enter, at_stage,
}
use sesori_relay_server.World.Branches.{join_bridge_cases}
use sesori_relay_server.World.Capacity.{slots_exact, groups_bounded}
use sesori_relay_server.World.Groups.{Consistent, Reach-Consistent, At-stage}
use sesori_relay_server.World.Shared.{grip, stages, stage_of}
use sesori_relay_server.World.Slots.{slots}

-- Some steps, one after the other.
pub data Run : World → World → Type 0 where
  done : {w : World} → Run w w
  step : {w t u : World} → Step w t → Run t u → Run w u

pub Run-Reach :
    {limit rooms : ℕ} {w t : World} → Run w t → Reach limit rooms w → Reach limit rooms t
Run-Reach done r = r
Run-Reach (step st rest) r = Run-Reach rest (next r st)

Run-append : {w t u : World} → Run w t → Run t u → Run w u
Run-append done rest = rest
Run-append (step st more) rest = step st (Run-append more rest)

-- A run after which one handler less is there than `n + 1`.
abbrev Shrinks : World → ℕ → Type 0
Shrinks w n = (t : World) × Run w t × (length t.handlers + 1 ≡ n)

ends-Shrinks :
    (w : World) (i : ℕ) (h : Handler)
    → At w i h
    → may_end h.stage ≡ true
    → Shrinks w (length w.handlers)
unfolding finish
ends-Shrinks w i h at may =
    (finish w i h, step (ends i h at may refl) done, length-delete ℕ_discrete i h w.handlers at)

-- A handler that moves on stays at its address.
moved-At :
    (w : World) (m : GroupManager) (i : ℕ) (h : Handler) (s : Stage)
    → At (enter (record w { manager = m }) i (at_stage h s)) i (at_stage h s)
moved-At w m i h s = ground (arith, lookup-insert ℕ_discrete i i (at_stage h s) w.handlers)

moved-length :
    (w : World) (m : GroupManager) (i : ℕ) (h : Handler) (s : Stage)
    → At w i h
    → length (enter (record w { manager = m }) i (at_stage h s)).handlers ≡ length w.handlers
moved-length w m i h s at = rw (length-insert ℕ_discrete i (at_stage h s) w.handlers, at) refl

-- A step that moves a handler on, before a run that ends it.
after :
    (w t : World) (m : GroupManager) (i : ℕ) (h : Handler) (s : Stage)
    → At w i h
    → t ≡ enter (record w { manager = m }) i (at_stage h s)
    → Step w t
    → ((v : World) → At v i (at_stage h s) → v ≡ t → Shrinks v (length v.handlers))
    → Shrinks w (length w.handlers)
after w t m i h s at e st rest =
    let there : At t i (at_stage h s) =
      subst (λ v. At v i (at_stage h s)) (sym e) (moved-At w m i h s) in
    let (u, run, fewer) = rest t there refl in
    (u, step st run, fewer ∙ ap (λ v. length v.handlers) e ∙ moved-length w m i h s at)

leaving-Shrinks :
    (w : World) (i : ℕ) (h : Handler) (user_id : Text) (ref : ℕ)
    → At w i h
    → h.stage ≡ leaving user_id ref
    → Shrinks w (length w.handlers)
unfolding collect
leaving-Shrinks w i h user_id ref at e =
    after w (collect w i h user_id ref) _ i h ending at refl (collects i h user_id ref at e refl)
      (λ v there _. ends-Shrinks v i (at_stage h ending) there refl)

bridge-Shrinks :
    (w : World) (i : ℕ) (h : Handler) (user_id : Text) (ref : ℕ) (g : AccountGroup)
    (bridge : Connection)
    → At w i h
    → h.stage ≡ bridge_serving user_id ref bridge
    → group_at w.manager ref ≡ some g
    → Shrinks w (length w.handlers)
unfolding withdraw_bridge
bridge-Shrinks w i h user_id ref g bridge at e found =
    after w (withdraw_bridge w i h user_id ref g bridge) _ i h (leaving user_id ref) at refl
      (removes_bridge i h user_id ref g bridge at e found refl)
      (λ v there _. leaving-Shrinks v i (at_stage h (leaving user_id ref)) user_id ref there refl)

phone-Shrinks :
    (w : World) (i : ℕ) (h : Handler) (user_id : Text) (ref : ℕ) (g : AccountGroup)
    (phone : Connection)
    → At w i h
    → h.stage ≡ phone_serving user_id ref phone
    → group_at w.manager ref ≡ some g
    → Shrinks w (length w.handlers)
unfolding withdraw_phone
phone-Shrinks w i h user_id ref g phone at e found =
    after w (withdraw_phone w i h user_id ref g phone) _ i h (leaving user_id ref) at refl
      (removes_phone i h user_id ref g phone at e found refl)
      (λ v there _. leaving-Shrinks v i (at_stage h (leaving user_id ref)) user_id ref there refl)

-- The group that a handler holds.
held_group :
    (w : World) (i : ℕ) (user_id : Text) (ref : ℕ)
    → Consistent w
    → grip (stages w.handlers i) ≡ some (user_id, ref)
    → (g : AccountGroup) × (group_at w.manager ref ≡ some g)
held_group w i user_id ref c holds = elim (Option-cases (group_at w.manager ref)) [
  | inl gone ↦ absurd (ground (arith, c.holds i user_id ref holds))
  | inr found ↦ found
]

-- A handler that has its group adds some bridge, or is refused.
joining-Shrinks :
    (limit rooms : ℕ) (w : World) (i : ℕ) (h : Handler) (user_id : Text) (ref : ℕ)
    → Reach limit rooms w
    → At w i h
    → h.stage ≡ joining user_id ref
    → Shrinks w (length w.handlers)
joining-Shrinks limit rooms w i h user_id ref r at e =
    let bridge : Connection = record {
      ref = i;
      conn_id = 0;
      bridge_id = [];
      connection_id = [];
      connected_at = 0;
    } in
    let (g, found) =
      held_group w i user_id ref (Reach-Consistent limit rooms r)
        (ap grip (At-stage w i h (joining user_id ref) at e)) in
    let t = join_bridge w i h user_id ref g bridge in
    let st : Step w t = adds_bridge i h user_id ref g bridge at e found refl refl in
    elim (join_bridge_cases w i h user_id ref g bridge) [
      | inl (_, added) ↦
          after w t _ i h (bridge_serving user_id ref bridge) at added st (λ v there same.
            let h' = at_stage h (bridge_serving user_id ref bridge) in
            let (g', found') =
              held_group v i user_id ref
                (Reach-Consistent limit rooms (subst (Reach limit rooms) (sym same) (next r st)))
                (ap grip (At-stage v i h' (bridge_serving user_id ref bridge) there refl)) in
            bridge-Shrinks v i h' user_id ref g' bridge there refl found')
      | inr (_, refused) ↦
          after w t w.manager i h ending at refused st
            (λ v there _. ends-Shrinks v i (at_stage h ending) there refl)
    ]

-- Whatever the stage of a handler is, it can come to its end.
handler-Shrinks :
    (limit rooms : ℕ) (w : World) (i : ℕ) (ip : Text) (s : Stage)
    → Reach limit rooms w
    → At w i (record { ip = ip; stage = s })
    → Shrinks w (length w.handlers)
handler-Shrinks limit rooms w i ip admitted r at = ends-Shrinks w i _ at refl
handler-Shrinks limit rooms w i ip checked r at = ends-Shrinks w i _ at refl
handler-Shrinks limit rooms w i ip ending r at = ends-Shrinks w i _ at refl
handler-Shrinks limit rooms w i ip (joining u ref) r at =
    joining-Shrinks limit rooms w i _ u ref r at refl
handler-Shrinks limit rooms w i ip (leaving u ref) r at = leaving-Shrinks w i _ u ref at refl
handler-Shrinks limit rooms w i ip (bridge_serving u ref b) r at =
    let (g, found) =
      held_group w i u ref (Reach-Consistent limit rooms r) (ap grip (ap stage_of at)) in
    bridge-Shrinks w i _ u ref g b at refl found
handler-Shrinks limit rooms w i ip (phone_serving u ref p) r at =
    let (g, found) =
      held_group w i u ref (Reach-Consistent limit rooms r) (ap grip (ap stage_of at)) in
    phone-Shrinks w i _ u ref g p at refl found

-- The handlers of the list are `n`, and they end one after the other.
drains_within :
    (n limit rooms : ℕ) (w : World)
    → Reach limit rooms w
    → length w.handlers ≡ n
    → (t : World) × Run w t × (length t.handlers ≡ 0)
unfolding lookup
drains_within zero limit rooms w r e = (w, done, e)
drains_within (suc n) limit rooms w r e =
    let (i, h, at) = first w.handlers (omega arith) in
    let (t, run, fewer) = handler-Shrinks limit rooms w i h.ip h.stage r at in
    let (u, rest, none_left) = drains_within n limit rooms t (Run-Reach run r) (omega arith) in
    (u, Run-append run rest, none_left)
  where
    first :
        (hs : Dict ℕ Handler)
        → 1 ≤ length hs
        → (i : ℕ) × (h : Handler) × (lookup ℕ_discrete i hs ≡ some h)
    first [] l = absurd (omega arith)
    first ((i, h) ∷ hs) l = (i, h, ground arith)

-- From every reachable world there is a run of steps after which no handler is left, the manager
-- has no group, and the limiter counts no connection from any address.
pub world_drains :
    (limit rooms : ℕ) (w : World)
    → Reach limit rooms w
    → (t : World) × Run w t
      × (t.handlers ≡ [])
      × (t.manager.groups ≡ [])
      × ((ip : Text) → count_of t.limiter ip ≡ 0)
unfolding held count
world_drains limit rooms w r =
    let (t, run, none_left) = drains_within (length w.handlers) limit rooms w r refl in
    let reached = Run-Reach run r in
    let empty = length-none t.handlers none_left in
    let few = groups_bounded limit rooms t reached in
    (
      t,
      run,
      empty,
      length-none t.manager.groups (omega arith),
      λ ip. (slots_exact limit rooms t ip reached).0 ∙ ap (λ hs. held ip (slots hs)) empty,
    )
  where
    length-none : {A : Type 0} (xs : List A) → length xs ≡ 0 → xs ≡ []
    length-none [] e = refl
    length-none (x ∷ xs) e = absurd (omega arith)
