-- ===== src/Prelude/Dict.antt =====
-- Go maps: association lists with one entry for each key. A missing key reads as `none`.
-- The order of the entries is the order in which `range` happens to visit them.

use Prim.Native.Nat.{◌+◌, ◌≤◌}
use mathlib.Core.Path.{◌≡◌, refl, sym, subst₂}
use mathlib.Core.Logic.{◌≢◌, ite, if_pos, if_neg}
use mathlib.Core.List.{List, [], ◌∷◌, map}
use mathlib.Core.Option.{Option, none, some}
use native.Mathlib.Omega.{arith}
use sesori_relay_server.Prelude.Lists.{length}

abbrev pub Dict {ℓ} : Type ℓ → Type ℓ → Type ℓ
Dict K V = List (K × V)

module _ {ℓ} {K V : Type ℓ} where
  abbrev pub keys : Dict K V → List K
  keys = map (λ e. e.0)

  abbrev pub values : Dict K V → List V
  values = map (λ e. e.1)

module _ {ℓ} {K V : Type ℓ} (dec : Discrete K) where
  -- `m[k]`.
  unfoldable pub lookup : K → Dict K V → Option V
  lookup k [] = none
  lookup k ((j, v) ∷ m) = ite (dec k j) (some v) (lookup k m)

  -- `m[k] = v`.
  unfoldable pub insert : K → V → Dict K V → Dict K V
  insert k v [] = (k, v) ∷ []
  insert k v ((j, w) ∷ m) = ite (dec k j) ((k, v) ∷ m) ((j, w) ∷ insert k v m)

  -- `delete(m, k)`.
  unfoldable pub delete : K → Dict K V → Dict K V
  delete k [] = []
  delete k ((j, w) ∷ m) = ite (dec k j) m ((j, w) ∷ delete k m)

  -- One entry for each key.
  abbrev pub Distinct : Dict K V → Type ℓ
  Distinct [] = Unit
  Distinct ((j, w) ∷ m) = (lookup j m ≡ none) × Distinct m

  pub lookup-nil : (k : K) → lookup k [] ≡ none
  unfolding lookup
  lookup-nil k = refl

  pub lookup-insert :
      (k j : K) (v : V) (m : Dict K V)
      → lookup j (insert k v m) ≡ ite (dec j k) (some v) (lookup j m)
  unfolding lookup insert
  lookup-insert k j v [] = refl
  lookup-insert k j v ((i, w) ∷ m) = ground (arith, lookup-insert k j v m)

  pub lookup-delete_ne : (k j : K) (m : Dict K V) → j ≢ k → lookup j (delete k m) ≡ lookup j m
  unfolding lookup delete
  lookup-delete_ne k j [] h = refl
  lookup-delete_ne k j ((i, w) ∷ m) h = ground (arith, lookup-delete_ne k j m)

  pub lookup-delete_self : (k : K) (m : Dict K V) → Distinct m → lookup k (delete k m) ≡ none
  unfolding lookup delete
  lookup-delete_self k [] d = refl
  lookup-delete_self k ((i, w) ∷ m) d = ground (arith, lookup-delete_self k m d.1)

  pub insert-Distinct : (k : K) (v : V) (m : Dict K V) → Distinct m → Distinct (insert k v m)
  unfolding insert lookup
  insert-Distinct k v [] d = (refl, tt)
  insert-Distinct k v ((i, w) ∷ m) d =
      ground (arith, insert-Distinct k v m d.1, lookup-insert k i v m)

  pub lookup-delete-none :
      (k j : K) (m : Dict K V) → lookup j m ≡ none → lookup j (delete k m) ≡ none
  unfolding lookup delete
  lookup-delete-none k j [] h = refl
  lookup-delete-none k j ((i, w) ∷ m) h = ground (arith, lookup-delete-none k j m)

  pub delete-Distinct : (k : K) (m : Dict K V) → Distinct m → Distinct (delete k m)
  unfolding delete
  delete-Distinct k [] d = d
  delete-Distinct k ((i, w) ∷ m) d =
      ground (arith, delete-Distinct k m d.1, lookup-delete-none k i m)

  -- An insertion adds an entry exactly when the key is new.
  pub length-insert :
      (k : K) (v : V) (m : Dict K V)
      → length (insert k v m) ≡ elim (lookup k m) [ none ↦ length m + 1 | some _ ↦ length m ]
  unfolding lookup insert
  length-insert k v [] = omega arith
  length-insert k v ((i, w) ∷ m) = ground (arith, length-insert k v m)

  pub insert_not_empty : (k : K) (v : V) (m : Dict K V) → 1 ≤ length (insert k v m)
  unfolding insert
  insert_not_empty k v [] = omega arith
  insert_not_empty k v ((i, w) ∷ m) = ground (arith, insert_not_empty k v m)

  pub lookup_not_empty : (k : K) (v : V) (m : Dict K V) → lookup k m ≡ some v → 1 ≤ length m
  unfolding lookup
  lookup_not_empty k v [] e = cc
  lookup_not_empty k v ((i, w) ∷ m) e = omega arith

  pub length-delete :
      (k : K) (v : V) (m : Dict K V) → lookup k m ≡ some v → length (delete k m) + 1 ≡ length m
  unfolding lookup delete
  length-delete k v [] h = cc
  length-delete k v ((i, w) ∷ m) h = ground (arith, length-delete k v m)

  pub length-delete-le : (k : K) (m : Dict K V) → length (delete k m) ≤ length m
  unfolding delete
  length-delete-le k [] = omega arith
  length-delete-le k ((i, w) ∷ m) = ground (arith, length-delete-le k m)

  module _ {κ} (P : K → V → Type κ) where
    -- A predicate on every entry.
    abbrev pub Entries : Dict K V → Type κ
    Entries [] = Unit
    Entries ((j, w) ∷ m) = P j w × Entries m

    pub Entries-lookup : (k : K) (v : V) (m : Dict K V) → Entries m → lookup k m ≡ some v → P k v
    unfolding lookup
    Entries-lookup k v [] h e = cc
    Entries-lookup k v ((j, w) ∷ m) h e = elim (dec k j) [
      | yes p ↦ subst₂ P (sym p) (ground arith) h.0
      | no p ↦ Entries-lookup k v m h.1 (ground arith)
    ]

    pub Entries-insert : (k : K) (v : V) (m : Dict K V) → P k v → Entries m → Entries (insert k v m)
    unfolding insert
    Entries-insert k v [] p h = (p, h)
    Entries-insert k v ((j, w) ∷ m) p h = elim (dec k j) [
      | yes q ↦ rw (if_pos (dec k j) q) (p, h.1)
      | no q ↦ rw (if_neg (dec k j) q) (h.0, Entries-insert k v m p h.1)
    ]

    pub Entries-delete : (k : K) (m : Dict K V) → Entries m → Entries (delete k m)
    unfolding delete
    Entries-delete k [] h = h
    Entries-delete k ((j, w) ∷ m) h = elim (dec k j) [
      | yes q ↦ rw (if_pos (dec k j) q) h.1
      | no q ↦ rw (if_neg (dec k j) q) (h.0, Entries-delete k m h.1)
    ]
