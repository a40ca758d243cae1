-- ===== src/Tests/Accounts.antt =====
-- An account with two bridges and two phones: the phone `mobile` follows the default bridge, the
-- phone `tablet` is pinned to the bridge `desk`.
use sesori_relay_server.Prelude.{
  ite, ◌↔◌, ℕ, ◌≤◌, ◌<◌, ◌≡◌, ◌⊎◌, refl, arith, true, false, [], ◌∷◌, none, some, Text,
  Text-discrete, ℕ_discrete, bytes, length,
}
use sesori_relay_server.Prelude.Dict.{Distinct, lookup}
use sesori_relay_server.AccountGroup.{
  is_current_bridge, remove_bridge, TargetChange, Connection, AccountGroup, max_bridges_per_account,
  max_phones_per_account, target, add_bridge, add_phone, phones_targeting, phone_targeting,
  default_bridge, free_conn_id, assign_conn_id, following, register, is_empty_text, latest_of,
  newer, is_later, all_phones,
}
use sesori_relay_server.AccountGroup.ConnIds.{IsConnId}
use sesori_relay_server.AccountGroup.Default.{default_bridge_order}
use sesori_relay_server.AccountGroup.Invariant.{IsValid, add_phone_total, with_phone}
use sesori_relay_server.AccountGroup.Changes.{Among, Describes, add_bridge_lem, remove_bridge_lem}
use sesori_relay_server.AccountGroup.Routing.{
  phones_targeting-phone_targeting, Within, displaced_reaches_none,
}

abbrev pub desk : Connection
desk = record {
  ref = 1;
  conn_id = 0;
  bridge_id = bytes "desk";
  connection_id = [];
  connected_at = 100;
}

abbrev pub laptop : Connection
laptop = record {
  ref = 2;
  conn_id = 0;
  bridge_id = bytes "laptop";
  connection_id = [];
  connected_at = 200;
}

-- The bridge `desk`, connected again.
abbrev pub desk_again : Connection
desk_again = record {
  ref = 5;
  conn_id = 0;
  bridge_id = bytes "desk";
  connection_id = [];
  connected_at = 300;
}

abbrev pub mobile : Connection
mobile = record { ref = 3; conn_id = 1; bridge_id = []; connection_id = []; connected_at = 0 }

abbrev pub tablet : Connection
tablet = record {
  ref = 4;
  conn_id = 2;
  bridge_id = bytes "desk";
  connection_id = [];
  connected_at = 0;
}

abbrev pub watch : Connection
watch = record { ref = 6; conn_id = 0; bridge_id = []; connection_id = []; connected_at = 0 }

abbrev pub home : AccountGroup
home = record {
  user_id = bytes "ann";
  bridges = (bytes "desk", desk) ∷ (bytes "laptop", laptop) ∷ [];
  phones = (1, mobile) ∷ (2, tablet) ∷ [];
  next_conn_id = 1;
}

-- The same account with the maps in another order.
abbrev home_reordered : AccountGroup
home_reordered = record home { bridges = (bytes "laptop", laptop) ∷ (bytes "desk", desk) ∷ [] }

pub home-IsValid : IsValid home
unfolding lookup Text-discrete ℕ_discrete
home-IsValid = record {
  distinct_bridges = (refl, (refl, tt));
  distinct_phones = (refl, (refl, tt));
  bridge_keys = (refl, (refl, tt));
  phone_ids = ((refl, (omega arith, omega arith)), ((refl, (omega arith, omega arith)), tt));
  bridges_fit = omega arith;
  phones_fit = omega arith;
  next_id = (omega arith, omega arith);
}

-- The search for a free id starts at 1, which `mobile` has, and ends at 3.
next_free_id :
    add_phone home watch
    ≡ some (
      with_phone home watch 3,
      record { phone = record watch { conn_id = 3 }; bridge = some laptop; is_ok = true },
    )
unfolding add_phone free_conn_id lookup assign_conn_id ℕ_discrete following register target
    is_empty_text default_bridge latest_of newer is_later
next_free_id = refl

displaced_reaches_none_example :
    (phones_targeting (add_bridge home desk_again).0 desk ≡ [])
    × ((id : ℕ) → phone_targeting (add_bridge home desk_again).0 desk id ≡ none)
unfolding lookup Text-discrete
displaced_reaches_none_example =
    displaced_reaches_none home desk desk_again refl refl (λ e. omega arith)

add_phone_total_example :
    ((max_phones_per_account ≤ length home.phones)
      × (add_phone home watch
          ≡ some (home, record { phone = watch; bridge = none; is_ok = false })))
    ⊎ ((id : ℕ) × (length home.phones < max_phones_per_account)
        × IsConnId id
        × (lookup ℕ_discrete id home.phones ≡ none)
        × (add_phone home watch
            ≡ some (
              with_phone home watch id,
              record {
                phone = record watch { conn_id = id };
                bridge = target (with_phone home watch id) (record watch { conn_id = id });
                is_ok = true;
              },
            )))
add_phone_total_example = add_phone_total home watch home-IsValid

reordered-Distinct : Distinct Text-discrete home_reordered.bridges
unfolding lookup Text-discrete
reordered-Distinct = (refl, (refl, tt))

reordered_same :
    (k : Text) → lookup Text-discrete k home.bridges ≡ lookup Text-discrete k home_reordered.bridges
unfolding lookup
reordered_same k = ground arith

default_bridge_order_example : default_bridge home ≡ default_bridge home_reordered
default_bridge_order_example =
    default_bridge_order home home_reordered home-IsValid.distinct_bridges home-IsValid.bridge_keys
      reordered-Distinct (refl, (refl, tt)) reordered_same

add_bridge_lem_example :
    let (g', added) = add_bridge home desk_again in
    let old = lookup Text-discrete desk_again.bridge_id home.bridges in
    ((old ≡ none)
      × (max_bridges_per_account ≤ length home.bridges)
      × (added.is_ok ≡ false)
      × (g' ≡ home)
      × (added.changes ≡ []))
    ⊎ ((old ≡ none → length home.bridges < max_bridges_per_account)
        × (added.is_ok ≡ true)
        × (added.displaced ≡ old)
        × (g' ≡ record home { bridges = g'.bridges })
        × ((id : Text)
            → lookup Text-discrete id g'.bridges
              ≡ ite
                  (Text-discrete id desk_again.bridge_id)
                  (some desk_again)
                  (lookup Text-discrete id home.bridges))
        × ((c : TargetChange)
            → Among c added.changes ↔ (Within c.phone (all_phones home) × Describes home g' c)))
add_bridge_lem_example = add_bridge_lem home desk_again

remove_bridge_lem_example :
    let (g', is_current, changes) = remove_bridge home desk in
    ((is_current_bridge home desk ≡ false) × (is_current ≡ false) × (g' ≡ home) × (changes ≡ []))
    ⊎ ((is_current_bridge home desk ≡ true)
        × (is_current ≡ true)
        × (g' ≡ record home { bridges = g'.bridges })
        × ((id : Text)
            → lookup Text-discrete id g'.bridges
              ≡ ite (Text-discrete id desk.bridge_id) none (lookup Text-discrete id home.bridges))
        × ((c : TargetChange)
            → Among c changes ↔ (Within c.phone (all_phones home) × Describes home g' c)))
remove_bridge_lem_example = remove_bridge_lem home desk home-IsValid

phones_targeting-phone_targeting_example :
    Within tablet (phones_targeting home desk) ↔ (phone_targeting home desk 2 ≡ some tablet)
phones_targeting-phone_targeting_example =
    phones_targeting-phone_targeting home desk tablet home-IsValid
