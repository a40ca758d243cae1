-- ===== src/AccountGroup/Default.antt =====
-- internal/relay/account_group.go: `defaultBridgeLocked`, and what a latest bridge is.
use sesori_relay_server.Prelude.{
  ◌≡◌, ◌∙◌, refl, sym, ap, true, false, ◌⊎◌, inl, inr, arith, [], ◌∷◌, none, some, Text,
  Text-discrete, Bool-cases,
}
use sesori_relay_server.Prelude.Dict.{Dict, Distinct, Entries, lookup, Entries-lookup}
use sesori_relay_server.AccountGroup.{
  Connection, AccountGroup, is_later, newer, latest_of, default_bridge,
}
use sesori_relay_server.AccountGroup.Ordering.{
  is_later_trans, is_later_irrefl, is_later_asym, is_later_total,
}

abbrev pub HasKey : Text → Connection → Type 0
HasKey k b = b.bridge_id ≡ k

-- The connection is a value of the map.
abbrev pub Among : Connection → Dict Text Connection → Type 0
Among r [] = ⊥
Among r ((_, b) ∷ m) = (b ≡ r) ⊎ Among r m

abbrev NotAfter : Connection → Text → Connection → Type 0
NotAfter r _ b = is_later b r ≡ false

-- `r` is registered under its id, and no registered bridge is later.
abbrev pub IsLatest : Dict Text Connection → Connection → Type 0
IsLatest m r =
    (lookup Text-discrete r.bridge_id m ≡ some r)
    × ((k : Text) (b : Connection) → lookup Text-discrete k m ≡ some b → is_later b r ≡ false)

latest_of-some :
    (l : Connection) (m : Dict Text Connection)
    → (r : Connection) × (latest_of (some l) m ≡ some r)
      × ((r ≡ l) ⊎ Among r m)
      × ((r ≡ l) ⊎ (is_later r l ≡ true))
      × Entries Text-discrete (NotAfter r) m
unfolding latest_of newer
latest_of-some l [] = (l, refl, inl refl, inl refl, tt)
latest_of-some l ((k, b) ∷ m) = elim (Bool-cases (is_later b l)) [
  | inl newest ↦
      let (r, e, among, later, bounds) = latest_of-some b m in
      (
        r,
        rw (newest, newer) e,
        ground arith,
        ground (arith, is_later_trans r b l),
        (ground (arith, is_later_irrefl r, is_later_asym r b), bounds),
      )
  | inr older ↦
      let (r, e, among, later, bounds) = latest_of-some l m in
      (
        r,
        rw (older, newer) e,
        ground arith,
        ground arith,
        (ground (arith, is_later_trans b r l), bounds),
      )
]

Among-lookup :
    (r : Connection) (m : Dict Text Connection)
    → Distinct Text-discrete m
    → Entries Text-discrete HasKey m
    → Among r m
    → lookup Text-discrete r.bridge_id m ≡ some r
unfolding lookup
Among-lookup r [] d h a = elim a [ ]
Among-lookup r ((k, b) ∷ m) d h (inl e) = ground arith
Among-lookup r ((k, b) ∷ m) d h (inr a) = ground (arith, Among-lookup r m d.1 h.1 a)

latest_of-none :
    (m : Dict Text Connection)
    → Distinct Text-discrete m
    → Entries Text-discrete HasKey m
    → ((m ≡ []) × (latest_of none m ≡ none))
      ⊎ ((r : Connection) × (latest_of none m ≡ some r) × IsLatest m r)
unfolding latest_of newer
latest_of-none [] d h = inl (refl, refl)
latest_of-none ((k, b) ∷ m) d h =
    let (r, e, among, later, bounds) = latest_of-some b m in
    inr (
      r,
      e,
      (
        Among-lookup r ((k, b) ∷ m) d h (ground arith),
        λ j c found.
            Entries-lookup Text-discrete (NotAfter r) j c ((k, b) ∷ m)
              (ground (arith, is_later_irrefl r, is_later_asym r b), bounds) found,
      ),
    )

pub default_bridge-IsLatest :
    (g : AccountGroup)
    → Distinct Text-discrete g.bridges
    → Entries Text-discrete HasKey g.bridges
    → ((g.bridges ≡ []) × (default_bridge g ≡ none))
      ⊎ ((r : Connection) × (default_bridge g ≡ some r) × IsLatest g.bridges r)
unfolding default_bridge
default_bridge-IsLatest g d h = latest_of-none g.bridges d h

pub IsLatest-unique :
    (m n : Dict Text Connection) (r s : Connection)
    → ((k : Text) → lookup Text-discrete k m ≡ lookup Text-discrete k n)
    → IsLatest m r
    → IsLatest n s
    → r ≡ s
IsLatest-unique m n r s e p q =
    let r_in_n : lookup Text-discrete r.bridge_id n ≡ some r = sym (e r.bridge_id) ∙ p.0 in
    let s_in_m : lookup Text-discrete s.bridge_id m ≡ some s = e s.bridge_id ∙ q.0 in
    let ids : r.bridge_id ≡ s.bridge_id =
      is_later_total r s (q.1 r.bridge_id r r_in_n) (p.1 s.bridge_id s s_in_m) in
    let both : some r ≡ some s = sym p.0 ∙ ap (λ k. lookup Text-discrete k m) ids ∙ s_in_m in cc

-- Two groups whose bridge maps have one entry for a key, hold each bridge under its id, and give
-- the same answer at every key have the same default bridge, in whatever order the maps are
-- visited.
pub default_bridge_order :
    (g h : AccountGroup)
    → Distinct Text-discrete g.bridges
    → Entries Text-discrete HasKey g.bridges
    → Distinct Text-discrete h.bridges
    → Entries Text-discrete HasKey h.bridges
    → ((k : Text) → lookup Text-discrete k g.bridges ≡ lookup Text-discrete k h.bridges)
    → default_bridge g ≡ default_bridge h
unfolding lookup
default_bridge_order g h dg kg dh kh e = elim (default_bridge-IsLatest g dg kg) [
  | inl (none_g, eg) ↦ elim (default_bridge-IsLatest h dh kh) [
    | inl (none_h, eh) ↦ eg ∙ sym eh
    | inr (s, eh, latest) ↦ absurd (ground (arith, e s.bridge_id, latest.0, none_g))
  ]
  | inr (r, eg, latest_r) ↦ elim (default_bridge-IsLatest h dh kh) [
    | inl (none_h, eh) ↦ absurd (ground (arith, e r.bridge_id, latest_r.0, none_h))
    | inr (s, eh, latest_s) ↦
        eg ∙ ap some (IsLatest-unique g.bridges h.bridges r s e latest_r latest_s) ∙ sym eh
  ]
]
