-- ===== src/World/Late/Recipients.antt =====
-- internal/relay/handler.go: whom the effects of a handler are about, for a group in which every
-- bridge and every phone has a property.
use sesori_relay_server.Prelude.{
  ◌≡◌, refl, inl, inr, arith, true, false, List, [], ◌∷◌, ◌++◌, Option, none, some, Text, All,
  Option-cases, Bool-cases, Bool, if◌then◌else◌,
}
use sesori_relay_server.AccountGroup.{
  Connection, AccountGroup, TargetChange, target, still_connected, change_of, changes_of,
  targets_of, same,
}
use sesori_relay_server.AccountGroup.Routing.{Within}
use sesori_relay_server.Announce.{
  Notice, announce_next, announce_change, announce_target_changes, announce_presence, write_control,
}
use sesori_relay_server.Handler.Effects.{
  Effect, notice, frame, close_now, take_over, close, cancel, report_status, report_control,
  notices,
}
use sesori_relay_server.Notifications.{BridgeStatusPayload}
use sesori_relay_server.World.Late.{Concerns, written_to}

pub All-append {ℓ κ} :
    {A : Type ℓ} (P : A → Type κ) (xs ys : List A) → All P xs → All P ys → All P (xs ++ ys)
All-append P [] ys a b = b
All-append P (x ∷ xs) ys a b = (a.0, All-append P xs ys a.1 b)

pub All-append_l {ℓ κ} :
    {A : Type ℓ} (P : A → Type κ) (xs ys : List A) → All P (xs ++ ys) → All P xs
All-append_l P [] ys a = tt
All-append_l P (x ∷ xs) ys a = (a.0, All-append_l P xs ys a.1)

pub All-append_r {ℓ κ} :
    {A : Type ℓ} (P : A → Type κ) (xs ys : List A) → All P (xs ++ ys) → All P ys
All-append_r P [] ys a = a
All-append_r P (x ∷ xs) ys a = All-append_r P xs ys a.1

pub All-if {ℓ κ} :
    {A : Type ℓ} (P : A → Type κ) (b : Bool) (xs : List A) → All P xs → All P (if b then xs else [])
All-if P true xs a = a
All-if P false xs a = tt

pub Concerns-both :
    (P P' R : Connection → Type 0) (Q Q' S : BridgeStatusPayload → Type 0) (e : Effect)
    → ((c : Connection) → P c → P' c → R c)
    → ((p : BridgeStatusPayload) → Q p → Q' p → S p)
    → Concerns P Q e
    → Concerns P' Q' e
    → Concerns R S e
Concerns-both P P' R Q Q' S (notice n) f g a b = f n.to a b
Concerns-both P P' R Q Q' S (frame c _) f g a b = f c a b
Concerns-both P P' R Q Q' S (close_now c) f g a b = f c a b
Concerns-both P P' R Q Q' S (take_over c) f g a b = f c a b
Concerns-both P P' R Q Q' S (close c _) f g a b = f c a b
Concerns-both P P' R Q Q' S (cancel c) f g a b = f c a b
Concerns-both P P' R Q Q' S (report_status p) f g a b = g p a b
Concerns-both P P' R Q Q' S (report_control p) f g a b = g p a b

-- The peer of a write has the property that the write has.
pub written_to-Concerns :
    (P : Connection → Type 0) (Q : BridgeStatusPayload → Type 0) (e : Effect) (peer : Connection)
    → written_to e ≡ some peer
    → Concerns P Q e
    → P peer
written_to-Concerns P Q (notice n) peer h a = ground (arith, a)
written_to-Concerns P Q (frame c _) peer h a = ground (arith, a)
written_to-Concerns P Q (close_now _) peer h a = absurd (cc)
written_to-Concerns P Q (take_over _) peer h a = absurd (cc)
written_to-Concerns P Q (close _ _) peer h a = absurd (cc)
written_to-Concerns P Q (cancel _) peer h a = absurd (cc)
written_to-Concerns P Q (report_status _) peer h a = absurd (cc)
written_to-Concerns P Q (report_control _) peer h a = absurd (cc)

pub notices-Concerns :
    (P : Connection → Type 0) (Q : BridgeStatusPayload → Type 0) (ns : List Notice)
    → All (λ n. P n.to) ns
    → All (Concerns P Q) (notices ns)
notices-Concerns P Q [] a = tt
notices-Concerns P Q (n ∷ ns) a = (a.0, notices-Concerns P Q ns a.1)

pub presence-to :
    (P : Connection → Type 0) (ps : List Connection) (bridge_id : Text) (online : Bool)
    → ((p : Connection) → Within p ps → P p)
    → All (λ n. P n.to) (announce_presence ps bridge_id online)
unfolding announce_presence write_control
presence-to P [] bridge_id online h = tt
presence-to P (p ∷ ps) bridge_id online h =
    (h p (inl refl), presence-to P ps bridge_id online (λ q w. h q (inr w)))

-- What a change names.
abbrev Named : (Connection → Type 0) → TargetChange → Type 0
Named P c =
    P c.phone
    × ((b : Connection) → c.previous ≡ some b → P b)
    × ((b : Connection) → c.next ≡ some b → P b)

announce_next-to :
    (P : Connection → Type 0) (c : TargetChange)
    → P c.phone
    → ((b : Connection) → c.next ≡ some b → P b)
    → All (λ n. P n.to) (announce_next c)
unfolding announce_next write_control
announce_next-to P c p h = elim (Option-cases c.next) [
  | inl nothing ↦ rw (nothing, announce_next) (p, tt)
  | inr (b, is) ↦ rw (is, announce_next) (p, (h b is, tt))
]

announce_change-to :
    (P : Connection → Type 0) (c : TargetChange) → Named P c → All (λ n. P n.to) (announce_change c)
unfolding announce_change write_control
announce_change-to P c (p, before, after) = elim (Option-cases c.previous) [
  | inl nothing ↦ rw (nothing, announce_change) (announce_next-to P c p after)
  | inr (b, is) ↦ rw (is, announce_change) (before b is, announce_next-to P c p after)
]

announce_target_changes-to :
    (P : Connection → Type 0) (cs : List TargetChange)
    → All (Named P) cs
    → All (λ n. P n.to) (announce_target_changes cs)
unfolding announce_target_changes
announce_target_changes-to P [] a = tt
announce_target_changes-to P (c ∷ cs) a =
    All-append (λ n. P n.to) (announce_change c) (announce_target_changes cs)
      (announce_change-to P c a.0) (announce_target_changes-to P cs a.1)

-- The group before a change of its bridges and the one after it.
module _ (P : Connection → Type 0) (g g' : AccountGroup)
    (old : (q b : Connection) → target g q ≡ some b → P b)
    (new : (q b : Connection) → target g' q ≡ some b → P b) where
  still_connected-target :
      (o : Option Connection) (b : Connection) → still_connected g' o ≡ some b → o ≡ some b
  unfolding still_connected
  still_connected-target none b e = e
  still_connected-target (some a) b e = ground arith

  changes-Named :
      (ps : List Connection)
      → ((p : Connection) → Within p ps → P p)
      → All (Named P) (changes_of g' (targets_of g ps))
  unfolding changes_of targets_of change_of
  changes-Named [] h = tt
  changes-Named (p ∷ ps) h =
      let rest = changes-Named ps (λ q w. h q (inr w)) in
      elim (Bool-cases (same (target g' p) (target g p))) [
        | inl kept ↦ rw (kept, changes_of) rest
        | inr changed ↦
            rw (changed, changes_of)
              (
                (
                  h p (inl refl),
                  λ b e. old p b (still_connected-target (target g p) b e),
                  λ b e. new p b e,
                ),
                rest,
              )
      ]

  pub changes-to :
      (ps : List Connection)
      → ((p : Connection) → Within p ps → P p)
      → All (λ n. P n.to) (announce_target_changes (changes_of g' (targets_of g ps)))
  changes-to ps h =
      announce_target_changes-to P (changes_of g' (targets_of g ps)) (changes-Named ps h)
