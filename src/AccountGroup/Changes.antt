-- ===== src/AccountGroup/Changes.antt =====
-- internal/relay/account_group.go: what `AddBridge` and `RemoveBridge` do to the group, and the target
-- changes that they return.
use sesori_relay_server.Prelude.{
  ◌≡◌, ◌≤◌, ◌<◌, ◌↔◌, ◌⊎◌, ◌∙◌, refl, sym, ap, subst, inl, inr, arith, true, false, List, [], ◌∷◌,
  Option, none, some, Text, Text-discrete, Bool-cases, length, ite,
}
use sesori_relay_server.Prelude.Dict.{lookup, lookup-insert, lookup-delete_self, lookup-delete_ne}
use sesori_relay_server.AccountGroup.{
  Connection, AccountGroup, TargetChange, max_bridges_per_account, same, target, change_of,
  changes_of, targets_of, still_connected, id_of, is_current_bridge, all_phones, add_bridge,
  remove_bridge,
}
use sesori_relay_server.AccountGroup.Invariant.{IsValid}
use sesori_relay_server.AccountGroup.Methods.{
  with_bridge, without_bridge, add_bridge_cases, remove_bridge_cases,
}
use sesori_relay_server.AccountGroup.Routing.{Within}

-- The change is in the list.
abbrev pub Among : TargetChange → List TargetChange → Type 0
Among c [] = ⊥
Among c (d ∷ ds) = (d ≡ c) ⊎ Among c ds

-- The phone's target is another connection in the group `g'` than in `g`. The change names the new
-- target, the id of the old one, and the old one itself if it is still registered.
abbrev pub Describes : AccountGroup → AccountGroup → TargetChange → Type 0
Describes g g' c =
    (same (target g' c.phone) (target g c.phone) ≡ false)
    × (c.next ≡ target g' c.phone)
    × (c.previous_bridge_id ≡ id_of (target g c.phone))
    × ((b : Connection)
        → (c.previous ≡ some b) ↔ ((target g c.phone ≡ some b) × (is_current_bridge g' b ≡ true)))

Option-ext {ℓ} : {A : Type ℓ} (o p : Option A) → ((a : A) → (o ≡ some a) ↔ (p ≡ some a)) → o ≡ p
Option-ext none none h = refl
Option-ext none (some a) h = (h a).1 refl
Option-ext (some a) p h = sym ((h a).0 refl)

still_connected_iff :
    (g' : AccountGroup) (o : Option Connection) (b : Connection)
    → (still_connected g' o ≡ some b) ↔ ((o ≡ some b) × (is_current_bridge g' b ≡ true))
unfolding still_connected
still_connected_iff g' none b = (λ e. cc, λ e. cc)
still_connected_iff g' (some a) b = (λ e. ground arith, λ e. ground arith)

module _ (g g' : AccountGroup) where
  -- The change that the loop makes for a phone.
  abbrev change_for : Connection → TargetChange
  change_for p = record {
    phone = p;
    previous = still_connected g' (target g p);
    previous_bridge_id = id_of (target g p);
    next = target g' p;
  }

  Describes-change_for : (c : TargetChange) → Describes g g' c → change_for c.phone ≡ c
  Describes-change_for c (_, next, id, previous) =
      let is_previous : still_connected g' (target g c.phone) ≡ c.previous =
        Option-ext (still_connected g' (target g c.phone)) c.previous (λ b.
          let (there, here) = still_connected_iff g' (target g c.phone) b in
          let (names, is_named) = previous b in (λ e. is_named (there e), λ e. here (names e))) in
      λ i. record {
        phone = c.phone;
        previous = is_previous i;
        previous_bridge_id = sym id i;
        next = sym next i;
      }

  change_for-Describes :
      (p : Connection) → same (target g' p) (target g p) ≡ false → Describes g g' (change_for p)
  change_for-Describes p moved = (moved, refl, refl, λ b. still_connected_iff g' (target g p) b)

  -- The list of the loop has the changes of these phones, and no other.
  changes_of_iff :
      (ps : List Connection) (c : TargetChange)
      → Among c (changes_of g' (targets_of g ps)) ↔ (Within c.phone ps × Describes g g' c)
  unfolding changes_of targets_of change_of
  changes_of_iff [] c = (λ e. elim e [ ], λ (e, _). elim e [ ])
  changes_of_iff (p ∷ ps) c =
      let (sound, complete) = changes_of_iff ps c in
      elim (Bool-cases (same (target g' p) (target g p))) [
        | inl kept ↦
            rw (kept, changes_of)
              (
                λ e. let (within, d) = sound e in (inr within, d),
                λ (within, d). elim within [
                  | inl is ↦
                      absurd (ground (arith, d.0, ap (λ q. same (target g' q) (target g q)) is))
                  | inr more ↦ complete (more, d)
                ],
              )
        | inr moved ↦
            rw (moved, changes_of)
              (
                λ e. elim e [
                  | inl is ↦
                      subst (λ d. Within d.phone (p ∷ ps) × Describes g g' d) is
                        (inl refl, change_for-Describes p moved)
                  | inr more ↦ let (within, d) = sound more in (inr within, d)
                ],
                λ (within, d). elim within [
                  | inl is ↦ inl (ap change_for is ∙ Describes-change_for c d)
                  | inr more ↦ inr (complete (more, d))
                ],
              )
      ]

-- AddBridge refuses a bridge only if its id is not registered and the account has its maximal
-- number of bridges, and then the group is unchanged and no change is returned. Otherwise, and then
-- a new id found the account below the maximum, only the bridge map changes, and only at the
-- bridge's id, where the bridge is now registered; the connection that had the id is returned as
-- displaced; and a change is returned exactly if it is of a phone of the group whose target is now
-- another connection, with the new target, the id of the old one, and the old one itself if it is
-- still registered.
pub add_bridge_lem :
    (g : AccountGroup) (bridge : Connection)
    → let (g', added) = add_bridge g bridge in
      let old = lookup Text-discrete bridge.bridge_id g.bridges in
      ((old ≡ none)
        × (max_bridges_per_account ≤ length g.bridges)
        × (added.is_ok ≡ false)
        × (g' ≡ g)
        × (added.changes ≡ []))
      ⊎ ((old ≡ none → length g.bridges < max_bridges_per_account)
          × (added.is_ok ≡ true)
          × (added.displaced ≡ old)
          × (g' ≡ record g { bridges = g'.bridges })
          × ((id : Text)
              → lookup Text-discrete id g'.bridges
                ≡ ite
                    (Text-discrete id bridge.bridge_id)
                    (some bridge)
                    (lookup Text-discrete id g.bridges))
          × ((c : TargetChange)
              → Among c added.changes ↔ (Within c.phone (all_phones g) × Describes g g' c)))
add_bridge_lem g bridge = elim (add_bridge_cases g bridge) [
  | inl (absent, full, refused) ↦ inl (rw refused (absent, full, refl, refl, refl))
  | inr (room, added) ↦ inr (
      rw added (
        room,
        refl,
        refl,
        refl,
        λ id. lookup-insert Text-discrete bridge.bridge_id id bridge g.bridges,
        λ c. changes_of_iff g (with_bridge g bridge) (all_phones g) c,
      ))
]

without_bridge-lookup :
    (g : AccountGroup) (bridge : Connection) (id : Text)
    → IsValid g
    → lookup Text-discrete id (without_bridge g bridge).bridges
      ≡ ite (Text-discrete id bridge.bridge_id) none (lookup Text-discrete id g.bridges)
without_bridge-lookup g bridge id v = ground (
  arith,
  lookup-delete_self Text-discrete bridge.bridge_id g.bridges v.distinct_bridges,
  lookup-delete_ne Text-discrete bridge.bridge_id id g.bridges,
)

-- In a valid group, RemoveBridge leaves the group as it is, says so and returns no change if the
-- bridge is not the current connection of its id. Otherwise only the bridge map changes, and only
-- at the bridge's id, which is then free; and a change is returned exactly if it is of a phone of
-- the group whose target is now another connection or none, with the new target, the id of the old
-- one, and the old one itself if it is still registered.
pub remove_bridge_lem :
    (g : AccountGroup) (bridge : Connection)
    → IsValid g
    → let (g', is_current, changes) = remove_bridge g bridge in
      ((is_current_bridge g bridge ≡ false) × (is_current ≡ false) × (g' ≡ g) × (changes ≡ []))
      ⊎ ((is_current_bridge g bridge ≡ true)
          × (is_current ≡ true)
          × (g' ≡ record g { bridges = g'.bridges })
          × ((id : Text)
              → lookup Text-discrete id g'.bridges
                ≡ ite (Text-discrete id bridge.bridge_id) none (lookup Text-discrete id g.bridges))
          × ((c : TargetChange)
              → Among c changes ↔ (Within c.phone (all_phones g) × Describes g g' c)))
remove_bridge_lem g bridge v = elim (remove_bridge_cases g bridge) [
  | inl (stale, kept) ↦ inl (rw kept (stale, refl, refl, refl))
  | inr (current, removed) ↦ inr (
      rw removed (
        current,
        refl,
        refl,
        λ id. without_bridge-lookup g bridge id v,
        λ c. changes_of_iff g (without_bridge g bridge) (all_phones g) c,
      ))
]
