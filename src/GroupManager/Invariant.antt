-- ===== src/GroupManager/Invariant.antt =====
-- internal/relay/group_manager.go: the well-formedness of the manager, for each method, and the
-- branches of the methods. It speaks of every address, of dropped groups too.
use sesori_relay_server.Prelude.{
  ℕ, ◌+◌, ◌≤◌, ◌≡◌, ◌≢◌, ◌∙◌, refl, sym, ap, subst, ite, true, false, ◌⊎◌, inl, inr, arith, Option,
  none, some, Text, Text-discrete, ℕ_discrete, Option-cases, Bool-cases, ◌&&◌, ◌==◌,
}
use sesori_relay_server.Prelude.Dict.{
  Distinct, lookup, insert, delete, insert-Distinct, delete-Distinct, lookup-insert,
  lookup-delete_ne, lookup-delete_self,
}
use sesori_relay_server.AccountGroup.{AccountGroup, new_account_group}
use sesori_relay_server.AccountGroup.Invariant.{IsValid, new_account_group-IsValid}
use sesori_relay_server.GroupManager.{
  GroupManager, new_group_manager, group_at, set_group, get_or_create_group, is_empty_at,
  remove_group_if_empty,
}

abbrev pub user_of : Option AccountGroup → Option Text
user_of none = none
user_of (some g) = some g.user_id

-- The user of the group at an address.
abbrev pub user_at : GroupManager → ℕ → Option Text
user_at m ref = user_of (group_at m ref)

pub record IsWellFormed (m : GroupManager) : Type 0 where
  pub distinct : Distinct Text-discrete m.groups
  pub registered :
      (user_id : Text) (ref : ℕ)
      → lookup Text-discrete user_id m.groups ≡ some ref
      → user_at m ref ≡ some user_id
  pub valid : (ref : ℕ) (g : AccountGroup) → group_at m ref ≡ some g → IsValid g
  pub below : (ref : ℕ) → m.next_ref ≤ ref → group_at m ref ≡ none

pub new_group_manager-IsWellFormed : IsWellFormed new_group_manager
unfolding new_group_manager lookup group_at
new_group_manager-IsWellFormed = record {
  distinct = tt;
  registered = λ user_id ref e. absurd (cc);
  valid = λ ref g e. absurd (cc);
  below = λ ref h. refl;
}

-- The manager after a group was made for a new user.
abbrev pub with_group : GroupManager → Text → GroupManager
with_group m user_id = record {
  groups = insert Text-discrete user_id m.next_ref m.groups;
  heap = insert ℕ_discrete m.next_ref (new_account_group user_id) m.heap;
  next_ref = m.next_ref + 1;
}

pub get_or_create_group_cases :
    (m : GroupManager) (user_id : Text)
    → ((ref : ℕ) × (lookup Text-discrete user_id m.groups ≡ some ref)
        × (get_or_create_group m user_id ≡ (m, ref)))
      ⊎ ((lookup Text-discrete user_id m.groups ≡ none)
          × (get_or_create_group m user_id ≡ (with_group m user_id, m.next_ref)))
unfolding get_or_create_group
get_or_create_group_cases m user_id = elim (Option-cases (lookup Text-discrete user_id m.groups)) [
  | inl new ↦ inr (new, ground arith)
  | inr (ref, found) ↦ inl (ref, found, ground arith)
]

pub with_group-group_at :
    (m : GroupManager) (user_id : Text) (ref : ℕ)
    → group_at (with_group m user_id) ref
      ≡ ite (ℕ_discrete ref m.next_ref) (some (new_account_group user_id)) (group_at m ref)
unfolding group_at
with_group-group_at m user_id ref =
    lookup-insert ℕ_discrete m.next_ref ref (new_account_group user_id) m.heap

pub with_group-IsWellFormed :
    (m : GroupManager) (user_id : Text) → IsWellFormed m → IsWellFormed (with_group m user_id)
unfolding new_account_group
with_group-IsWellFormed m user_id w = record {
  distinct = insert-Distinct Text-discrete user_id m.next_ref m.groups w.distinct;
  registered = λ u ref e. ground (
    arith,
    lookup-insert Text-discrete user_id u m.next_ref m.groups,
    with_group-group_at m user_id ref,
    w.registered u ref,
    w.below m.next_ref,
  );
  valid = λ ref g e. elim (ℕ_discrete ref m.next_ref) [
    | yes fresh ↦
        subst IsValid (ground (arith, with_group-group_at m user_id ref))
          (new_account_group-IsValid user_id)
    | no old ↦ w.valid ref g (ground (arith, with_group-group_at m user_id ref))
  ];
  below = λ ref h. ground (arith, with_group-group_at m user_id ref, w.below ref);
}

pub get_or_create_group-IsWellFormed :
    (m : GroupManager) (user_id : Text)
    → IsWellFormed m
    → IsWellFormed (get_or_create_group m user_id).0
get_or_create_group-IsWellFormed m user_id w = elim (get_or_create_group_cases m user_id) [
  | inl (ref, _, e) ↦ subst (λ r. IsWellFormed r.0) (sym e) w
  | inr (_, e) ↦ subst (λ r. IsWellFormed r.0) (sym e) (with_group-IsWellFormed m user_id w)
]

-- In a well-formed manager, the group that GetOrCreateGroup returns is the one registered for the
-- user and belongs to this user, the registrations of all other users stay, and every group that
-- existed before is unchanged.
pub get_or_create_group_lem :
    (m : GroupManager) (user_id : Text)
    → IsWellFormed m
    → let (m', ref) = get_or_create_group m user_id in
      (lookup Text-discrete user_id m'.groups ≡ some ref)
      × (user_at m' ref ≡ some user_id)
      × ((u : Text)
          → u ≢ user_id
          → lookup Text-discrete u m'.groups ≡ lookup Text-discrete u m.groups)
      × ((r : ℕ) (g : AccountGroup) → group_at m r ≡ some g → group_at m' r ≡ some g)
unfolding new_account_group
get_or_create_group_lem m user_id w = elim (get_or_create_group_cases m user_id) [
  | inl (ref, found, e) ↦ rw e (found, w.registered user_id ref found, λ u ne. refl, λ r g h. h)
  | inr (new, e) ↦ rw e (
    ground (arith, lookup-insert Text-discrete user_id user_id m.next_ref m.groups),
    ground (arith, with_group-group_at m user_id m.next_ref),
    λ u ne. ground (arith, lookup-insert Text-discrete user_id u m.next_ref m.groups),
    λ r g h. ground (arith, with_group-group_at m user_id r, w.below m.next_ref),
  )
]

-- What `RemoveGroupIfEmpty` does: it drops the registration of the user exactly when the given
-- group is the registered one and is empty.
abbrev pub Drops : GroupManager → Text → ℕ → Type 0
Drops m user_id ref =
    (lookup Text-discrete user_id m.groups ≡ some ref) × (is_empty_at m ref ≡ true)

abbrev pub without_user : GroupManager → Text → GroupManager
without_user m user_id = record m { groups = delete Text-discrete user_id m.groups }

pub remove_group_if_empty_cases :
    (m : GroupManager) (user_id : Text) (ref : ℕ)
    → (Drops m user_id ref × (remove_group_if_empty m user_id ref ≡ without_user m user_id))
      ⊎ ((¬ Drops m user_id ref) × (remove_group_if_empty m user_id ref ≡ m))
unfolding remove_group_if_empty
remove_group_if_empty_cases m user_id ref =
    elim (Option-cases (lookup Text-discrete user_id m.groups)) [
      | inl absent ↦ inr (λ d. ground arith, ground arith)
      | inr (g, found) ↦ elim (Bool-cases (g == ref && is_empty_at m g)) [
        | inl drop ↦ inl ((ground arith, ground arith), ground arith)
        | inr keep ↦ inr (λ d. ground arith, ground arith)
      ]
    ]

-- RemoveGroupIfEmpty keeps a manager well formed: each registration leads to a group of that user,
-- there is one registration for a user, every group is valid, and no address past the next free one
-- is in use.
pub remove_group_if_empty-IsWellFormed :
    (m : GroupManager) (user_id : Text) (ref : ℕ)
    → IsWellFormed m
    → IsWellFormed (remove_group_if_empty m user_id ref)
unfolding group_at
remove_group_if_empty-IsWellFormed m user_id ref w =
    elim (remove_group_if_empty_cases m user_id ref) [
      | inl (_, e) ↦ rw e (record {
        distinct = delete-Distinct Text-discrete user_id m.groups w.distinct;
        registered = λ u r found. ground (
          arith,
          lookup-delete_self Text-discrete user_id m.groups w.distinct,
          lookup-delete_ne Text-discrete user_id u m.groups,
          w.registered u r,
        );
        valid = w.valid;
        below = w.below;
      })
      | inr (_, e) ↦ rw e w
    ]

-- In a well-formed manager, a user's registered group stays registered after RemoveGroupIfEmpty,
-- for whatever user, if the group that the call names is another one or if the registered group is
-- not empty.
pub remove_group_if_empty_keeps :
    (m : GroupManager) (user_id u : Text) (stale ref : ℕ)
    → IsWellFormed m
    → lookup Text-discrete u m.groups ≡ some ref
    → (stale ≢ ref) ⊎ (is_empty_at m ref ≡ false)
    → lookup Text-discrete u (remove_group_if_empty m user_id stale).groups ≡ some ref
remove_group_if_empty_keeps m user_id u stale ref w found safe =
    elim (remove_group_if_empty_cases m user_id stale) [
      | inl (d, e) ↦ elim (Text-discrete u user_id) [
        | yes same_user ↦
            absurd (ground (arith, ap (λ k. lookup Text-discrete k m.groups) same_user))
        | no other ↦ rw e (lookup-delete_ne Text-discrete user_id u m.groups other ∙ found)
      ]
      | inr (_, e) ↦ rw e found
    ]

-- A write of a valid group of the same user keeps the manager well formed.
pub set_group-IsWellFormed :
    (m : GroupManager) (ref : ℕ) (g : AccountGroup)
    → IsWellFormed m
    → user_at m ref ≡ some g.user_id
    → IsValid g
    → IsWellFormed (set_group m ref g)
unfolding set_group group_at
set_group-IsWellFormed m ref g w user v = record {
  distinct = w.distinct;
  registered =
      λ u r found. ground (arith, lookup-insert ℕ_discrete ref r g m.heap, w.registered u r found);
  valid = λ r h e. elim (ℕ_discrete r ref) [
    | yes here ↦ subst IsValid (ground (arith, lookup-insert ℕ_discrete ref r g m.heap)) v
    | no other ↦ w.valid r h (ground (arith, lookup-insert ℕ_discrete ref r g m.heap))
  ];
  below = λ r h. ground (arith, lookup-insert ℕ_discrete ref r g m.heap, w.below r h);
}

-- A group of the same user in the place of another.
pub store-IsWellFormed :
    (m : GroupManager) (ref : ℕ) (g g' : AccountGroup)
    → IsWellFormed m
    → group_at m ref ≡ some g
    → g'.user_id ≡ g.user_id
    → IsValid g'
    → IsWellFormed (set_group m ref g')
store-IsWellFormed m ref g g' w here user valid =
    set_group-IsWellFormed m ref g' w (ap user_of here ∙ ap some (sym user)) valid
