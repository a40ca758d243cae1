-- ===== src/RateLimiter/Slots.antt =====
-- internal/relay/ratelimit.go and an abstract limiter: the list of the connections that hold a
-- slot, one entry with the client address for each.
use sesori_relay_server.Prelude.{
  ℕ, suc, ◌+◌, ◌≤◌, ◌≡◌, ◌∙◌, refl, subst, ◌-◌, Bool, true, false, List, [], ◌∷◌, Text,
  Text-discrete, ite, ltb, if◌then◌else◌, arith, Option-cases, inl, inr,
}
use sesori_relay_server.Prelude.Dict.{
  Distinct, Entries, lookup, lookup-insert, lookup-delete_ne, lookup-delete_self, insert-Distinct,
  delete-Distinct, Entries-insert, Entries-delete, Entries-lookup,
}
use sesori_relay_server.RateLimiter.{
  RateLimiter, new_rate_limiter, count_of, allow_connection, release_connection,
}

-- How many connections from `ip` hold a slot.
unfoldable pub held : Text → List Text → ℕ
held ip [] = 0
held ip (x ∷ xs) = ite (Text-discrete ip x) (suc (held ip xs)) (held ip xs)

-- A connection from `ip` gives its slot back.
unfoldable pub give_back : Text → List Text → List Text
give_back ip [] = []
give_back ip (x ∷ xs) = ite (Text-discrete ip x) xs (x ∷ give_back ip xs)

abbrev pub InRange : ℕ → Text → ℕ → Type 0
InRange limit _ count = (1 ≤ count) × (count ≤ limit)

-- The table is well formed, and each count is the number of slots held from that address.
pub record Represents (rl : RateLimiter) (slots : List Text) : Type 0 where
  pub distinct : Distinct Text-discrete rl.counts
  pub in_range : Entries Text-discrete (InRange rl.max_per_ip) rl.counts
  pub counts : (ip : Text) → count_of rl ip ≡ held ip slots

pub new-Represents : (a b : ℕ) → Represents (new_rate_limiter a b) []
unfolding new_rate_limiter held lookup
new-Represents a b = record { distinct = tt; in_range = tt; counts = λ ip. refl }

pub held-give_back :
    (ip jp : Text) (slots : List Text)
    → held jp (give_back ip slots) ≡ ite (Text-discrete jp ip) (held ip slots - 1) (held jp slots)
unfolding held give_back
held-give_back ip jp [] = ground arith
held-give_back ip jp (x ∷ xs) = ground (arith, held-give_back ip jp xs)

-- The abstract limiter grants a slot while fewer than `limit` are held from the address.
abbrev pub grant : ℕ → Text → List Text → List Text × Bool
grant limit ip slots = if ltb (held ip slots) limit then (ip ∷ slots, true) else (slots, false)

-- `AllowConnection` decides as the abstract limiter does and keeps the table in step with it.
pub allow_connection-grant :
    (rl : RateLimiter) (ip : Text) (slots : List Text)
    → Represents rl slots
    → ((allow_connection rl ip).1 ≡ (grant rl.max_per_ip ip slots).1)
      × Represents (allow_connection rl ip).0 (grant rl.max_per_ip ip slots).0
unfolding allow_connection held
allow_connection-grant rl ip slots r = (
  ground (arith, r.counts ip),
  record {
    distinct =
        ground (arith, insert-Distinct Text-discrete ip (count_of rl ip + 1) rl.counts r.distinct);
    in_range = ground (
      arith,
      r.in_range,
      Entries-insert Text-discrete (InRange rl.max_per_ip) ip (count_of rl ip + 1) rl.counts,
    );
    counts = λ jp. ground (
      arith,
      r.counts ip,
      r.counts jp,
      lookup-insert Text-discrete ip jp (count_of rl ip + 1) rl.counts,
    );
  },
)

pub count_of-le :
    (rl : RateLimiter) (ip : Text)
    → Entries Text-discrete (InRange rl.max_per_ip) rl.counts
    → count_of rl ip ≤ rl.max_per_ip
count_of-le rl ip h = elim (Option-cases (lookup Text-discrete ip rl.counts)) [
  | inl e ↦ rw e (omega arith)
  | inr (n, e) ↦ rw e (Entries-lookup Text-discrete (InRange rl.max_per_ip) ip n rl.counts h e).1
]

release_connection-counts :
    (rl : RateLimiter) (ip jp : Text)
    → Distinct Text-discrete rl.counts
    → count_of (release_connection rl ip) jp
      ≡ ite (Text-discrete jp ip) (count_of rl ip - 1) (count_of rl jp)
unfolding release_connection
release_connection-counts rl ip jp d =
    let n = count_of rl ip - 1 in
    ground (
      arith,
      lookup-insert Text-discrete ip jp n rl.counts,
      lookup-delete_self Text-discrete ip rl.counts d,
      lookup-delete_ne Text-discrete ip jp rl.counts,
    )

-- `ReleaseConnection` gives back one slot of the address, if one is held.
pub release_connection-give_back :
    (rl : RateLimiter) (ip : Text) (slots : List Text)
    → Represents rl slots
    → Represents (release_connection rl ip) (give_back ip slots)
unfolding release_connection
release_connection-give_back rl ip slots r =
    let n = count_of rl ip - 1 in
    record {
      distinct = ground (
        arith,
        insert-Distinct Text-discrete ip n rl.counts r.distinct,
        delete-Distinct Text-discrete ip rl.counts r.distinct,
      );
      in_range = ground (
        arith,
        r.in_range,
        count_of-le rl ip r.in_range,
        Entries-insert Text-discrete (InRange rl.max_per_ip) ip n rl.counts,
        Entries-delete Text-discrete (InRange rl.max_per_ip) ip rl.counts r.in_range,
      );
      counts = λ jp. ground (
        arith,
        r.counts ip,
        r.counts jp,
        release_connection-counts rl ip jp r.distinct,
        held-give_back ip jp slots,
      );
    }

-- A history of the limiter: connections that ask for a slot and connections that end.
pub data Event : Type 0 where
  opens closes : Text → Event

unfoldable pub step : RateLimiter → Event → RateLimiter
step rl (opens ip) = (allow_connection rl ip).0
step rl (closes ip) = release_connection rl ip

unfoldable pub run : RateLimiter → List Event → RateLimiter
run rl [] = rl
run rl (e ∷ es) = run (step rl e) es

-- The same history of the abstract limiter.
unfoldable pub run_slots : ℕ → List Text → List Event → List Text
run_slots limit slots [] = slots
run_slots limit slots (opens ip ∷ es) = run_slots limit (grant limit ip slots).0 es
run_slots limit slots (closes ip ∷ es) = run_slots limit (give_back ip slots) es

pub allow_connection-max :
    (rl : RateLimiter) (ip : Text) → (allow_connection rl ip).0.max_per_ip ≡ rl.max_per_ip
unfolding allow_connection
allow_connection-max rl ip = ground arith

pub release_connection-max :
    (rl : RateLimiter) (ip : Text) → (release_connection rl ip).max_per_ip ≡ rl.max_per_ip
unfolding release_connection
release_connection-max rl ip = ground arith

run_from-Represents :
    (limit : ℕ) (rl : RateLimiter) (slots : List Text) (es : List Event)
    → rl.max_per_ip ≡ limit
    → Represents rl slots
    → Represents (run rl es) (run_slots limit slots es) × ((run rl es).max_per_ip ≡ limit)
unfolding run run_slots step
run_from-Represents limit rl slots [] e r = (r, e)
run_from-Represents limit rl slots (opens ip ∷ es) e r =
    run_from-Represents limit (allow_connection rl ip).0 (grant limit ip slots).0 es
      (allow_connection-max rl ip ∙ e)
      (subst (λ n. Represents (allow_connection rl ip).0 (grant n ip slots).0) e
        (allow_connection-grant rl ip slots r).1)
run_from-Represents limit rl slots (closes ip ∷ es) e r =
    run_from-Represents limit (release_connection rl ip) (give_back ip slots) es
      (release_connection-max rl ip ∙ e) (release_connection-give_back rl ip slots r)

-- After any sequence of AllowConnection and ReleaseConnection on a new limiter, the count of each
-- address is the number of slots that the abstract limiter, which grants a slot while fewer than
-- the limit are held from the address, has given and not got back in the same sequence; and no
-- count is over the limit.
pub run-Represents :
    (limit rooms : ℕ) (es : List Event)
    → let rl = run (new_rate_limiter limit rooms) es in
      Represents rl (run_slots limit [] es) × ((ip : Text) → count_of rl ip ≤ limit)
unfolding new_rate_limiter
run-Represents limit rooms es =
    let (r, e) =
      run_from-Represents limit (new_rate_limiter limit rooms) [] es refl
        (new-Represents limit rooms) in
    (
      r,
      λ ip.
          subst (λ n. count_of (run (new_rate_limiter limit rooms) es) ip ≤ n) e
            (count_of-le (run (new_rate_limiter limit rooms) es) ip r.in_range),
    )
