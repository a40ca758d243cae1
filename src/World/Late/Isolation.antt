-- ===== src/World/Late/Isolation.antt =====
-- internal/relay/handler.go: the effects of a handler stay with the connections of its user, however
-- late they are made.
use sesori_relay_server.Prelude.{
  ℕ, ◌≡◌, refl, sym, subst, true, false, List, [], ◌∷◌, ◌++◌, none, some, Text, All,
}
use sesori_relay_server.Prelude.Dict.{lookup}
use sesori_relay_server.World.{
  bridge_serving, phone_serving, leaving, World, Step, Reach, arrives, checks, gets_group,
  adds_bridge, adds_phone, removes_bridge, removes_phone, collects, ends, here, next, new_world,
}
use sesori_relay_server.World.Groups.{At-stage, Reach-Consistent}
use sesori_relay_server.World.Late.{
  Late, begin, accesses, presents_online, presents_offline, bridge_reads, phone_reads, makes, fails,
  Owners, owners_after, Task, starts, Concerns, NewAddress, Circumstances,
}
use sesori_relay_server.World.Late.Fits.{
  presence-Fits, bridge_message-Fits, phone_message-Fits, started-Fits, pending-Fits,
}
use sesori_relay_server.World.Late.Pieces.{Names}
use sesori_relay_server.Handler.Effects.{close_now}
use sesori_relay_server.World.Late.Owners.{Of, Owner-grip, Owned, Fits, Step-Owned}
use sesori_relay_server.World.Late.Recipients.{
  written_to-Concerns, All-append, All-append_l, All-append_r,
}
use sesori_relay_server.World.Late.Starts.{}
use sesori_relay_server.World.Shared.{stages, grip}
use sesori_relay_server.World.Slots.{Reach-Accounted}

-- What is pending can be made at once.
flushed :
    (limit rooms : ℕ) (w : World) (o : Owners) (ts : List Task)
    → Late limit rooms w o ts
    → Late limit rooms w o []
flushed limit rooms w o [] l = l
flushed limit rooms w o (t ∷ ts) l = flushed limit rooms w o ts (makes [] t ts l)

nothing_new : {w t : World} (st : Step w t) → NewAddress [] st
nothing_new (arrives i ip new e) = tt
nothing_new (checks i h at s e) = tt
nothing_new (gets_group i h u at s e) = tt
nothing_new (adds_bridge i h u r g b at s found mine e) = tt
nothing_new (adds_phone i h u r g p a at s found mine result e) = tt
nothing_new (removes_bridge i h u r g b at s found e) = tt
nothing_new (removes_phone i h u r g p at s found e) = tt
nothing_new (collects i h u r at s e) = tt
nothing_new (ends i h at may e) = tt

-- Every reachable world is one in which all effects are made.
pub Reach-Late :
    (limit rooms : ℕ) (x : Circumstances) {w : World}
    → Reach limit rooms w
    → (o : Owners) × Late limit rooms w o []
Reach-Late limit rooms x here = ((λ i. none), begin)
Reach-Late limit rooms x (next {w} {t} r st) =
    let (o, l) = Reach-Late limit rooms x r in
    let o' = owners_after o st in
    (o', flushed limit rooms t o' (starts x st ++ []) (accesses l st x (nothing_new st) refl refl))

module _ (limit rooms : ℕ) where
  Late-Reach :
      {w : World} {o : Owners} {ts : List Task} → Late limit rooms w o ts → Reach limit rooms w
  Late-Reach begin = here
  Late-Reach (accesses l st x new e e') = next (Late-Reach l) st
  Late-Reach (presents_online l i h u r g b at s found) = Late-Reach l
  Late-Reach (presents_offline l i h u r g b at s found) = Late-Reach l
  Late-Reach (bridge_reads l i h r g json s now m at e found) = Late-Reach l
  Late-Reach (phone_reads l i h u r g json p nb now m at e found) = Late-Reach l
  Late-Reach (makes before task behind l) = Late-Reach l
  Late-Reach (fails before task behind peer l e) = Late-Reach l

  Late-Owned :
      {w : World} {o : Owners} {ts : List Task}
      → Late limit rooms w o ts
      → Owned o (stages w.handlers)
  unfolding new_world lookup
  Late-Owned begin = λ j. tt
  Late-Owned (accesses {w} {t} {o} l st x new e e') =
      subst (λ p. Owned p (stages t.handlers)) (sym e)
        (Step-Owned o st (Reach-Accounted limit rooms (Late-Reach l)).distinct (Late-Owned l))
  Late-Owned (presents_online l i h u r g b at s found) = Late-Owned l
  Late-Owned (presents_offline l i h u r g b at s found) = Late-Owned l
  Late-Owned (bridge_reads l i h r g json s now m at e found) = Late-Owned l
  Late-Owned (phone_reads l i h u r g json p nb now m at e found) = Late-Owned l
  Late-Owned (makes before task behind l) = Late-Owned l
  Late-Owned (fails before task behind peer l e) = Late-Owned l

  Late-Fits : {w : World} {o : Owners} {ts : List Task} → Late limit rooms w o ts → All (Fits o) ts
  Late-Fits begin = tt
  Late-Fits (accesses {w} {t} {o} {o'} {ts} {ts'} l st x new e e') =
      let c = Reach-Consistent limit rooms (Late-Reach l) in
      let v = Late-Owned l in
      subst (λ p. All (Fits p) ts') (sym e)
        (subst (All (Fits (owners_after o st))) (sym e') (
          All-append (Fits (owners_after o st)) (starts x st) ts (started-Fits o w c v x st)
            (pending-Fits o w c v st ts new (Late-Fits l))))
  Late-Fits (presents_online {w} {o} {ts} l i h u r g b at s found) =
      let s0 = bridge_serving u r b in
      let c = Reach-Consistent limit rooms (Late-Reach l) in
      let stage = At-stage w i h s0 at s in
      All-append (Fits o) _ ts
        (presence-Fits o w c (Late-Owned l) i s0 u r g stage refl found b.bridge_id true)
        (Late-Fits l)
  Late-Fits (presents_offline {w} {o} {ts} l i h u r g id at s found) =
      let s0 = leaving u r in
      let c = Reach-Consistent limit rooms (Late-Reach l) in
      let stage = At-stage w i h s0 at s in
      All-append (Fits o) _ ts
        (presence-Fits o w c (Late-Owned l) i s0 u r g stage refl found id false) (Late-Fits l)
  Late-Fits (bridge_reads {w} {o} {ts} l i h r g json session now m at e found) =
      let u = session.user_id in
      let s0 = bridge_serving u r session.conn in
      let c = Reach-Consistent limit rooms (Late-Reach l) in
      let stage = At-stage w i h s0 at e in
      All-append (Fits o) _ ts
        (bridge_message-Fits o w c (Late-Owned l) i s0 u r g stage refl found json session now m
          refl)
        (Late-Fits l)
  Late-Fits (phone_reads {w} {o} {ts} l i h u r g json p nb now m at e found) =
      let s0 = phone_serving u r p in
      let c = Reach-Consistent limit rooms (Late-Reach l) in
      let stage = At-stage w i h s0 at e in
      All-append (Fits o) _ ts
        (phone_message-Fits o w c (Late-Owned l) i s0 u r g stage refl found json p nb now m)
        (Late-Fits l)
  Late-Fits (fails {w} {o} before task behind peer l e) =
      let a = Late-Fits l in
      let here = All-append_r (Fits o) before (task ∷ behind) a in
      All-append (Fits o) before (record task { effect = close_now peer } ∷ behind)
        (All-append_l (Fits o) before (task ∷ behind) a)
        (
          written_to-Concerns (Of o task.user_id) (Names task.user_id) task.effect peer e here.0,
          here.1,
        )
  Late-Fits (makes {w} {o} before task behind l) =
      let a = Late-Fits l in
      All-append (Fits o) before behind (All-append_l (Fits o) before (task ∷ behind) a)
        (All-append_r (Fits o) before (task ∷ behind) a).1

  -- Let the effects of the handlers (notices, frames, closes, cancels and reports) stay pending
  -- after the access that starts them, each be made at any later time, in any order, a write also
  -- fail and its peer be closed, and AllPhones be an access of its own; and let no new connection
  -- get an address that something pending is about. In every reachable state, a pending effect is
  -- about a connection whose token names the user for whom its handler works, or it is a report
  -- about this user; and a handler that holds a group of a user serves a connection whose token
  -- names this user.
  pub effects_isolated :
      (w : World) (o : Owners) (before : List Task) (task : Task) (behind : List Task)
      → Late limit rooms w o (before ++ task ∷ behind)
      → Concerns (λ c. o c.ref ≡ some task.user_id) (λ p. p.user_id ≡ task.user_id) task.effect
        × ((i : ℕ) (u : Text) (r : ℕ) → grip (stages w.handlers i) ≡ some (u, r) → o i ≡ some u)
  effects_isolated w o before task behind l = (
    (All-append_r (Fits o) before (task ∷ behind) (Late-Fits l)).0,
    λ i u r e. Owner-grip (stages w.handlers i) (o i) u r (Late-Owned l i) e,
  )
