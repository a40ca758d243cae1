-- ===== src/AccountGroup/Invariant.antt =====
-- internal/relay/account_group.go: the well-formedness of a group, for each method.
use sesori_relay_server.Prelude.{
  ℕ, ◌≤◌, ◌<◌, ◌≡◌, refl, subst, true, false, ◌⊎◌, inl, inr, arith, none, some, Text, Text-discrete,
  ℕ_discrete, Bool-cases, length, leb,
}
use sesori_relay_server.Prelude.Dict.{
  Distinct, Entries, lookup, insert, insert-Distinct, delete-Distinct, Entries-insert,
  Entries-delete, length-insert, length-delete-le,
}
use sesori_relay_server.AccountGroup.{
  Connection, AccountGroup, Registered, max_bridges_per_account, max_phones_per_account,
  new_account_group, same, change_bridges, add_bridge, remove_bridge, register, add_phone,
  remove_phone, following, target,
}
use sesori_relay_server.AccountGroup.Default.{HasKey}
use sesori_relay_server.AccountGroup.ConnIds.{IsConnId, following-IsConnId, free_conn_id_total}

abbrev pub HasId : ℕ → Connection → Type 0
HasId id phone = (phone.conn_id ≡ id) × IsConnId id

-- Each map has one entry for a key, each bridge stands under its id and each phone under its
-- connection id, which is a uint16 other than 0, and neither map is over its limit.
pub record IsValid (g : AccountGroup) : Type 0 where
  pub distinct_bridges : Distinct Text-discrete g.bridges
  pub distinct_phones : Distinct ℕ_discrete g.phones
  pub bridge_keys : Entries Text-discrete HasKey g.bridges
  pub phone_ids : Entries ℕ_discrete HasId g.phones
  pub bridges_fit : length g.bridges ≤ max_bridges_per_account
  pub phones_fit : length g.phones ≤ max_phones_per_account
  pub next_id : IsConnId g.next_conn_id

pub new_account_group-IsValid : (user_id : Text) → IsValid (new_account_group user_id)
unfolding new_account_group
new_account_group-IsValid user_id = record {
  distinct_bridges = tt;
  distinct_phones = tt;
  bridge_keys = tt;
  phone_ids = tt;
  bridges_fit = omega arith;
  phones_fit = omega arith;
  next_id = omega arith;
}

-- AddBridge keeps a group valid: after it, as before, each map has one entry for a key, bridges
-- stand under their ids, phones under theirs, which are from 1 to 65535, and no map is over its
-- limit.
pub add_bridge-IsValid :
    (g : AccountGroup) (bridge : Connection) → IsValid g → IsValid (add_bridge g bridge).0
unfolding add_bridge change_bridges same
add_bridge-IsValid g bridge v =
    let id = bridge.bridge_id in
    record {
      distinct_bridges =
          ground (arith, v.distinct_bridges, insert-Distinct Text-discrete id bridge g.bridges);
      distinct_phones = ground (arith, v.distinct_phones);
      bridge_keys =
          ground
            (arith, v.bridge_keys, Entries-insert Text-discrete HasKey id bridge g.bridges refl);
      phone_ids = ground (arith, v.phone_ids);
      bridges_fit = ground (arith, v.bridges_fit, length-insert Text-discrete id bridge g.bridges);
      phones_fit = ground (arith, v.phones_fit);
      next_id = ground (arith, v.next_id);
    }

-- RemoveBridge keeps a group valid: after it, as before, each map has one entry for a key, bridges
-- stand under their ids, phones under theirs, which are from 1 to 65535, and no map is over its
-- limit.
pub remove_bridge-IsValid :
    (g : AccountGroup) (bridge : Connection) → IsValid g → IsValid (remove_bridge g bridge).0
unfolding remove_bridge change_bridges
remove_bridge-IsValid g bridge v =
    let id = bridge.bridge_id in
    record {
      distinct_bridges =
          ground (arith, v.distinct_bridges, delete-Distinct Text-discrete id g.bridges);
      distinct_phones = ground (arith, v.distinct_phones);
      bridge_keys = ground (arith, v.bridge_keys, Entries-delete Text-discrete HasKey id g.bridges);
      phone_ids = ground (arith, v.phone_ids);
      bridges_fit = ground (arith, v.bridges_fit, length-delete-le Text-discrete id g.bridges);
      phones_fit = ground (arith, v.phones_fit);
      next_id = ground (arith, v.next_id);
    }

pub remove_phone-IsValid :
    (g : AccountGroup) (phone : Connection) → IsValid g → IsValid (remove_phone g phone).0
unfolding remove_phone
remove_phone-IsValid g phone v = record {
  distinct_bridges = v.distinct_bridges;
  distinct_phones = delete-Distinct ℕ_discrete phone.conn_id g.phones v.distinct_phones;
  bridge_keys = v.bridge_keys;
  phone_ids = Entries-delete ℕ_discrete HasId phone.conn_id g.phones v.phone_ids;
  bridges_fit = v.bridges_fit;
  phones_fit = omega (arith, v.phones_fit, length-delete-le ℕ_discrete phone.conn_id g.phones);
  next_id = v.next_id;
}

-- The group after a phone was registered under `id`.
abbrev pub with_phone : AccountGroup → Connection → ℕ → AccountGroup
with_phone g phone id = record g {
  next_conn_id = following id;
  phones = insert ℕ_discrete id (record phone { conn_id = id }) g.phones;
}

-- AddPhone returns on every valid group: the search for a free connection id ends within one step
-- more than there are phones. A group with the maximal number of phones refuses the phone and is
-- unchanged. Otherwise the phone is registered under an id from 1 to 65535 that no other phone has,
-- and its target in the new group is returned.
pub add_phone_total :
    (g : AccountGroup) (phone : Connection)
    → IsValid g
    → ((max_phones_per_account ≤ length g.phones)
        × (add_phone g phone ≡ some (g, record { phone = phone; bridge = none; is_ok = false })))
      ⊎ ((id : ℕ) × (length g.phones < max_phones_per_account)
          × IsConnId id
          × (lookup ℕ_discrete id g.phones ≡ none)
          × (add_phone g phone
              ≡ some (
                with_phone g phone id,
                record {
                  phone = record phone { conn_id = id };
                  bridge = target (with_phone g phone id) (record phone { conn_id = id });
                  is_ok = true;
                },
              )))
unfolding add_phone register
add_phone_total g phone v = elim (Bool-cases (leb max_phones_per_account (length g.phones))) [
  | inl full ↦ inl (ground arith, rw full)
  | inr room ↦
      let (id, found, range, free) = free_conn_id_total g v.next_id (omega (arith, v.phones_fit)) in
      inr (id, ground arith, range, free, rw (room, found))
]

pub with_phone-IsValid :
    (g : AccountGroup) (phone : Connection) (id : ℕ)
    → IsValid g
    → length g.phones < max_phones_per_account
    → IsConnId id
    → lookup ℕ_discrete id g.phones ≡ none
    → IsValid (with_phone g phone id)
with_phone-IsValid g phone id v room range free =
    let phone' : Connection = record phone { conn_id = id } in
    record {
      distinct_bridges = v.distinct_bridges;
      distinct_phones = insert-Distinct ℕ_discrete id phone' g.phones v.distinct_phones;
      bridge_keys = v.bridge_keys;
      phone_ids = Entries-insert ℕ_discrete HasId id phone' g.phones (refl, range) v.phone_ids;
      bridges_fit = v.bridges_fit;
      phones_fit = ground (arith, length-insert ℕ_discrete id phone' g.phones, free);
      next_id = following-IsConnId id range;
    }

-- AddPhone keeps a group valid: if it returns from a valid group, each map has one entry for a key,
-- bridges stand under their ids, phones under theirs, which are from 1 to 65535, and no map is over
-- its limit.
pub add_phone-IsValid :
    (g g' : AccountGroup) (phone : Connection) (r : Registered)
    → IsValid g
    → add_phone g phone ≡ some (g', r)
    → IsValid g'
add_phone-IsValid g g' phone r v e = elim (add_phone_total g phone v) [
  | inl (full, refused) ↦ subst IsValid (ground arith) v
  | inr (id, room, range, free, added) ↦
      subst IsValid (ground arith) (with_phone-IsValid g phone id v room range free)
]
