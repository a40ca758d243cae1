-- ===== src/World/Overrun.antt =====
-- internal/relay/handler.go and ratelimit.go: `AllowGroup` is asked before a handler has its user, and
-- the group is made later, under another lock.
use sesori_relay_server.Prelude.{
  ℕ, zero, suc, ◌+◌, ◌≤◌, ◌<◌, ◌≡◌, ◌∙◌, refl, sym, ap, inl, inr, arith, true, [], ◌∷◌, none, Text,
  Text-discrete, ℕ_discrete, length, ltb,
}
use sesori_relay_server.Prelude.Dict.{lookup, lookup-insert, length-insert}
use sesori_relay_server.GroupManager.{count, new_group_manager}
use sesori_relay_server.GroupManager.Invariant.{with_group, get_or_create_group_cases}
use sesori_relay_server.RateLimiter.{allow_connection, allow_group, new_rate_limiter}
use sesori_relay_server.RateLimiter.Slots.{held, allow_connection-grant}
use sesori_relay_server.World.{
  Handler, World, Reach, here, next, At, admitted, checked, joining, at_stage, enter, new_world,
  arrive, check_groups, get_group, arrives, checks, gets_group,
}
use sesori_relay_server.World.Slots.{slots, Reach-Accounted, held-insert_new, held-insert_old}

-- The address of the handler `n`, and the name of its user.
label : ℕ → Text
label zero = b'a' ∷ []
label (suc n) = b'a' ∷ label n

length-label : (n : ℕ) → length (label n) ≡ n + 1
unfolding label
length-label zero = omega arith
length-label (suc n) = omega (arith, length-label n)

label-injective : (m n : ℕ) → label m ≡ label n → m ≡ n
label-injective m n e = omega (arith, length-label m, length-label n, ap length e)

abbrev passed : ℕ → Handler
passed i = record { ip = label i; stage = checked }

-- The handlers below `n` have passed the check, and there is no group yet.
record IsCrowd (rooms n : ℕ) (w : World) : Type 0 where
  no_groups : w.manager.groups ≡ []
  rooms_kept : w.limiter.max_rooms ≡ rooms
  passes : (i : ℕ) → i < n → At w i (passed i)
  later : (i : ℕ) → n ≤ i → lookup ℕ_discrete i w.handlers ≡ none
  free : (i : ℕ) → n ≤ i → held (label i) (slots w.handlers) ≡ 0

allow_connection-max_rooms :
    (w : World) (ip : Text) → (allow_connection w.limiter ip).0.max_rooms ≡ w.limiter.max_rooms
unfolding allow_connection
allow_connection-max_rooms w ip = ground arith

-- A new handler from an address of its own is let in.
IsCrowd-arrives :
    (limit rooms n : ℕ) (w : World)
    → 1 ≤ limit
    → Reach limit rooms w
    → IsCrowd rooms n w
    → (allow_connection w.limiter (label n)).1 ≡ true
IsCrowd-arrives limit rooms n w l r c =
    let a = Reach-Accounted limit rooms r in
    ground (
      arith,
      (allow_connection-grant w.limiter (label n) (slots w.handlers) a.counted).0,
      c.free n,
      a.limit_kept,
    )

module _ (limit rooms n : ℕ) (w : World) (r : Reach limit rooms w) (c : IsCrowd rooms n w) where
  newcomer : Handler
  newcomer = record { ip = label n; stage = admitted }

  let_in : World
  let_in = enter (record w { limiter = (allow_connection w.limiter (label n)).0 }) n newcomer

  let_in-At : At let_in n newcomer
  unfolding let_in
  let_in-At = ground (arith, lookup-insert ℕ_discrete n n newcomer w.handlers)

  let_in-arrive : 1 ≤ limit → arrive w n (label n) ≡ let_in
  unfolding let_in newcomer arrive
  let_in-arrive l = rw (IsCrowd-arrives limit rooms n w l r c) refl

  let_in-checked : 1 ≤ rooms → check_groups let_in n newcomer ≡ enter let_in n (passed n)
  unfolding let_in newcomer check_groups allow_group count
  let_in-checked k =
      let few : ltb (length w.manager.groups) (allow_connection w.limiter (label n)).0.max_rooms
          ≡ true =
        ground (
          arith,
          c.no_groups,
          c.rooms_kept,
          allow_connection-max_rooms w (label n),
          ap length c.no_groups,
        ) in
      rw few refl

  let_in-IsCrowd : IsCrowd rooms (suc n) (enter let_in n (passed n))
  unfolding let_in newcomer held
  let_in-IsCrowd = record {
    no_groups = c.no_groups;
    rooms_kept = allow_connection-max_rooms w (label n) ∙ c.rooms_kept;
    passes = λ i l. ground (
      arith,
      lookup-insert ℕ_discrete n i (passed n) let_in.handlers,
      lookup-insert ℕ_discrete n i newcomer w.handlers,
      c.passes i,
    );
    later = λ i l. ground (
      arith,
      lookup-insert ℕ_discrete n i (passed n) let_in.handlers,
      lookup-insert ℕ_discrete n i newcomer w.handlers,
      c.later i,
    );
    free = λ i l. ground (
      arith,
      held-insert_old (label i) n (passed n) newcomer let_in.handlers let_in-At refl,
      held-insert_new (label i) n newcomer w.handlers (c.later n (omega arith)),
      c.free i,
      label-injective i n,
    );
  }

  IsCrowd-grows :
      1 ≤ limit → 1 ≤ rooms → (t : World) × Reach limit rooms t × IsCrowd rooms (suc n) t
  unfolding newcomer
  IsCrowd-grows l k =
      let first = next r (arrives n (label n) (c.later n (omega arith)) (sym (let_in-arrive l))) in
      (
        enter let_in n (passed n),
        next first (checks n newcomer let_in-At refl (sym (let_in-checked k))),
        let_in-IsCrowd,
      )

crowd :
    (limit rooms n : ℕ)
    → 1 ≤ limit
    → 1 ≤ rooms
    → (w : World) × Reach limit rooms w × IsCrowd rooms n w
unfolding new_world new_group_manager new_rate_limiter held lookup
crowd limit rooms zero l k = (
  new_world limit rooms,
  here,
  record {
    no_groups = refl;
    rooms_kept = refl;
    passes = λ i h. absurd (omega arith);
    later = λ i h. refl;
    free = λ i h. refl;
  },
)
crowd limit rooms (suc n) l k =
    let (w, r, c) = crowd limit rooms n l k in IsCrowd-grows limit rooms n w r c l k

-- The handlers below `k` have made groups, and those from `k` to `n` have passed the check.
record HasGroups (n k : ℕ) (w : World) : Type 0 where
  size : count w.manager ≡ k
  passes : (i : ℕ) → k ≤ i → i < n → At w i (passed i)
  new : (i : ℕ) → k ≤ i → lookup Text-discrete (label i) w.manager.groups ≡ none

-- A handler whose user is new makes a group.
made : World → ℕ → World
made w k =
    enter (record w { manager = with_group w.manager (label k) }) k
      (at_stage (passed k) (joining (label k) w.manager.next_ref))

get_group-made :
    (n k : ℕ) (w : World) → HasGroups n k w → get_group w k (passed k) (label k) ≡ made w k
unfolding get_group made
get_group-made n k w c = elim (get_or_create_group_cases w.manager (label k)) [
  | inl (ref, known, _) ↦ absurd (ground (arith, c.new k))
  | inr (_, e) ↦ rw e refl
]

made-HasGroups : (n k : ℕ) (w : World) → HasGroups n k w → HasGroups n (suc k) (made w k)
unfolding made count
made-HasGroups n k w c = record {
  size = ground (
    arith,
    length-insert Text-discrete (label k) w.manager.next_ref w.manager.groups,
    c.size,
    c.new k,
  );
  passes = λ i l h. ground (
    arith,
    lookup-insert ℕ_discrete k i (at_stage (passed k) (joining (label k) w.manager.next_ref))
        w.handlers,
    c.passes i,
  );
  new = λ i l. ground (
    arith,
    lookup-insert Text-discrete (label k) (label i) w.manager.next_ref w.manager.groups,
    c.new i,
    label-injective i k,
  );
}

groups_made :
    (limit rooms n k : ℕ) (w : World)
    → Reach limit rooms w
    → HasGroups n 0 w
    → k ≤ n
    → (t : World) × Reach limit rooms t × HasGroups n k t
groups_made limit rooms n zero w r c l = (w, r, c)
groups_made limit rooms n (suc k) w r c l =
    let (t, reached, d) = groups_made limit rooms n k w r c (omega arith) in
    (
      made t k,
      next reached (
          gets_group k (passed k) (label k) (d.passes k (omega arith) (omega arith)) refl
            (sym (get_group-made n k t d))),
      made-HasGroups n k t d,
    )

-- For every limit of at least one connection for an address, every limit of at least one group, and
-- every number n, a world in which the manager has exactly n groups is reachable, whatever the
-- limit on groups is.
pub groups_overrun :
    (limit rooms n : ℕ)
    → 1 ≤ limit
    → 1 ≤ rooms
    → (w : World) × Reach limit rooms w × (count w.manager ≡ n)
unfolding count lookup
groups_overrun limit rooms n l k =
    let (w, r, c) = crowd limit rooms n l k in
    let (t, reached, d) =
      groups_made limit rooms n n w r
        (record {
          size = ap length c.no_groups;
          passes = λ i _ h. c.passes i h;
          new = λ i _. ap (λ m. lookup Text-discrete (label i) m) c.no_groups;
        })
        (omega arith) in
    (t, reached, d.size)
