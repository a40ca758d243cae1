-- ===== src/AccountGroup/ConnIds.antt =====
-- internal/relay/account_group.go: the search of `AddPhone` for a free connection id, over the cycle
-- of the ids from 1 to 65535.
use sesori_relay_server.Prelude.{
  ℕ, zero, suc, ◌+◌, ◌-◌, ◌≤◌, ◌<◌, ◌≡◌, ◌≢◌, refl, inl, inr, arith, [], ◌∷◌, Option, none, some,
  ℕ_discrete, Option-cases, length, leb, if◌then◌else◌,
}
use sesori_relay_server.Prelude.Dict.{Dict, lookup, delete, lookup-delete_ne, length-delete}
use sesori_relay_server.AccountGroup.{
  Connection, AccountGroup, following, assign_conn_id, free_conn_id,
}

abbrev pub IsConnId : ℕ → Type 0
IsConnId id = (1 ≤ id) × (id < 65536)

pub following-IsConnId : (id : ℕ) → IsConnId id → IsConnId (following id)
unfolding following
following-IsConnId id h = ground arith

-- How many ids the cycle goes through from `id` before it meets `x`.
distance : ℕ → ℕ → ℕ
distance id x = if leb id x then x - id else x + 65535 - id

distance-following :
    (id x : ℕ) → IsConnId id → IsConnId x → id ≢ x → distance (following id) x + 1 ≡ distance id x
unfolding distance following
distance-following id x h k ne = ground arith

distance_self : (id : ℕ) → IsConnId id → distance (following id) id ≡ 65534
unfolding distance following
distance_self id h = ground arith

distance-ne : (id x : ℕ) → 1 ≤ distance id x → id ≢ x
unfolding distance
distance-ne id x h e = ground arith

-- The loop over the map alone: the id that it settles on.
abbrev search_id : ℕ → ℕ → Dict ℕ Connection → Option ℕ
search_id zero id m = none
search_id (suc fuel) id m = elim (lookup ℕ_discrete id m) [
  | none ↦ some id
  | some _ ↦ search_id fuel (following id) m
]

-- Taking an id off the map that the search does not meet changes nothing.
search_id-delete :
    (fuel id x : ℕ) (m : Dict ℕ Connection) (r : ℕ)
    → IsConnId id
    → IsConnId x
    → fuel ≤ distance id x
    → search_id fuel id (delete ℕ_discrete x m) ≡ some r
    → search_id fuel id m ≡ some r
search_id-delete zero id x m r h k d e = e
search_id-delete (suc fuel) id x m r h k d e =
    let ne = distance-ne id x (omega arith) in
    ground (
      arith,
      lookup-delete_ne ℕ_discrete x id m ne,
      distance-following id x h k ne,
      search_id-delete fuel (following id) x m r (following-IsConnId id h) k,
    )

search_id-nil : (id : ℕ) → search_id 1 id [] ≡ some id
unfolding lookup
search_id-nil id = refl

search_id_total :
    (n id : ℕ) (m : Dict ℕ Connection)
    → IsConnId id
    → length m ≤ n
    → n < 65535
    → (r : ℕ) × (search_id (suc n) id m ≡ some r)
search_id_total zero id [] h l b = (id, search_id-nil id)
search_id_total zero id (e ∷ m) h l b = absurd (omega arith)
search_id_total (suc n) id m h l b = elim (Option-cases (lookup ℕ_discrete id m)) [
  | inl free ↦ (id, ground arith)
  | inr (phone, taken) ↦
      let (r, found) =
        search_id_total n (following id) (delete ℕ_discrete id m) (following-IsConnId id h)
          (omega (arith, length-delete ℕ_discrete id phone m taken)) (omega arith) in
      (
        r,
        rw (taken, search_id)
            (search_id-delete (suc n) (following id) id m r (following-IsConnId id h) h
              (omega (arith, distance_self id h)) found),
      )
]

search_id-free :
    (fuel id : ℕ) (m : Dict ℕ Connection) (r : ℕ)
    → IsConnId id
    → search_id fuel id m ≡ some r
    → IsConnId r × (lookup ℕ_discrete r m ≡ none)
search_id-free zero id m r h e = cc
search_id-free (suc fuel) id m r h e = elim (Option-cases (lookup ℕ_discrete id m)) [
  | inl free ↦ ground arith
  | inr (phone, taken) ↦
      search_id-free fuel (following id) m r (following-IsConnId id h) (ground arith)
]

-- The loop assigns the id that the search settles on, and continues after it the next time.
free_conn_id-search_id :
    (fuel : ℕ) (g : AccountGroup) (r : ℕ)
    → search_id fuel g.next_conn_id g.phones ≡ some r
    → free_conn_id fuel g ≡ some (record g { next_conn_id = following r }, r)
unfolding free_conn_id assign_conn_id
free_conn_id-search_id zero g r e = cc
free_conn_id-search_id (suc fuel) g r e =
    elim (Option-cases (lookup ℕ_discrete g.next_conn_id g.phones)) [
      | inl free ↦ ground arith
      | inr (phone, taken) ↦ ground (
        arith,
        free_conn_id-search_id fuel (record g { next_conn_id = following g.next_conn_id }) r,
      )
    ]

-- With fewer than 65535 phones the loop of `AddPhone` ends: one round more than there are phones
-- is enough. It finds an id that no phone has, and changes nothing else.
pub free_conn_id_total :
    (g : AccountGroup)
    → IsConnId g.next_conn_id
    → length g.phones < 65535
    → (id : ℕ) × (free_conn_id (suc (length g.phones)) g
        ≡ some (record g { next_conn_id = following id }, id))
      × IsConnId id
      × (lookup ℕ_discrete id g.phones ≡ none)
free_conn_id_total g h b =
    let (id, found) = search_id_total (length g.phones) g.next_conn_id g.phones h (omega arith) b in
    let (range, free) = search_id-free (suc (length g.phones)) g.next_conn_id g.phones id h found in
    (id, free_conn_id-search_id (suc (length g.phones)) g id found, range, free)
