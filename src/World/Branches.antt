-- ===== src/World/Branches.antt =====
-- internal/relay/handler.go: the branches of the steps that may refuse a connection.
use sesori_relay_server.Prelude.{ℕ, ◌≡◌, ◌⊎◌, inl, inr, true, false, Text, Bool-cases}
use sesori_relay_server.AccountGroup.{Connection, AccountGroup, Registered, add_bridge}
use sesori_relay_server.GroupManager.{count}
use sesori_relay_server.RateLimiter.{allow_group}
use sesori_relay_server.World.{
  Handler, World, checked, ending, bridge_serving, phone_serving, enter, at_stage, stored,
  check_groups, join_bridge, join_phone,
}

pub check_groups_cases :
    (w : World) (i : ℕ) (h : Handler)
    → (check_groups w i h ≡ enter w i (at_stage h checked))
      ⊎ (check_groups w i h ≡ enter w i (at_stage h ending))
unfolding check_groups
check_groups_cases w i h = elim (Bool-cases (allow_group w.limiter (count w.manager))) [
  | inl few ↦ inl (rw few)
  | inr many ↦ inr (rw many)
]

pub join_bridge_cases :
    (w : World) (i : ℕ) (h : Handler) (user_id : Text) (ref : ℕ) (g : AccountGroup) (b : Connection)
    → (((add_bridge g b).1.is_ok ≡ true)
        × (join_bridge w i h user_id ref g b
            ≡ stored w i h ref (add_bridge g b).0 (bridge_serving user_id ref b)))
      ⊎ (((add_bridge g b).1.is_ok ≡ false)
          × (join_bridge w i h user_id ref g b ≡ enter w i (at_stage h ending)))
unfolding join_bridge
join_bridge_cases w i h user_id ref g b = elim (Bool-cases (add_bridge g b).1.is_ok) [
  | inl added ↦ inl (added, rw added)
  | inr refused ↦ inr (refused, rw refused)
]

pub join_phone_cases :
    (w : World) (i : ℕ) (h : Handler) (user_id : Text) (ref : ℕ) (r : AccountGroup × Registered)
    → ((r.1.is_ok ≡ true)
        × (join_phone w i h user_id ref r
            ≡ stored w i h ref r.0 (phone_serving user_id ref r.1.phone)))
      ⊎ ((r.1.is_ok ≡ false) × (join_phone w i h user_id ref r ≡ enter w i (at_stage h ending)))
unfolding join_phone
join_phone_cases w i h user_id ref (g, added) = elim (Bool-cases added.is_ok) [
  | inl ok ↦ inl (ok, rw ok)
  | inr refused ↦ inr (refused, rw refused)
]
