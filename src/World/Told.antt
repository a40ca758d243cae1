-- ===== src/World/Told.antt =====
-- internal/relay/handler.go: the handlers side by side, with what their connections know from all
-- notices that were written to them. The notices of an access to the group are written before the
-- next access of a handler; World/Overtaken.antt is about another order.
pub mod Knows
pub mod Bridges
pub mod Changes
pub mod Phones
pub mod Quiet
pub mod Invariant
use sesori_relay_server.Prelude.{
  ℕ, ◌≡◌, Bool, true, false, ◌&&◌, not, if◌then◌else◌, ◌++◌, ite, List, [], Option, none, Text,
  ℕ_discrete,
}
use sesori_relay_server.AccountGroup.{
  Connection, AccountGroup, all_phones, add_bridge, remove_bridge, remove_phone,
}
use sesori_relay_server.Announce.{Notice, announce_target_changes, announce_presence}
use sesori_relay_server.GroupManager.{GroupManager, set_group, has_live_bridge_with_id}
use sesori_relay_server.Announce.Views.{phone_view, bridge_view}
use sesori_relay_server.Handler.Lifecycle.{sent}
use sesori_relay_server.Handler.Phone.{phone_opened, phone_closed}
use sesori_relay_server.World.{
  World, Step, new_world, arrives, checks, gets_group, adds_bridge, adds_phone, removes_bridge,
  removes_phone, collects, ends,
}

-- For each address: the target that a phone there believes in, and whether a bridge there believes
-- that the phone with a connection id talks to it.
pub record Beliefs : Type 0 where
  pub target_of : ℕ → Option Text
  pub talks : ℕ → ℕ → Bool

unfoldable pub hear : Beliefs → List Notice → Beliefs
hear b ns = record {
  target_of = λ i. phone_view i (b.target_of i) ns;
  talks = λ i id. bridge_view i id (b.talks i id) ns;
}

-- A connection that has just come knows nothing.
unfoldable pub forget : Beliefs → ℕ → Beliefs
forget b i = record {
  target_of = λ j. ite (ℕ_discrete j i) none (b.target_of j);
  talks = λ j id. ite (ℕ_discrete j i) false (b.talks j id);
}

abbrev pub no_beliefs : Beliefs
no_beliefs = record { target_of = λ i. none; talks = λ i id. false }

-- What `handleBridge` writes after `AddBridge`, and after `RemoveBridge` in its cleanup.
unfoldable pub joining_notices : AccountGroup → Connection → List Notice
joining_notices g c =
    let (g', added) = add_bridge g c in
    if added.is_ok
    then announce_target_changes added.changes ++ announce_presence (all_phones g') c.bridge_id true
    else []

unfoldable pub leaving_notices : GroupManager → Text → ℕ → AccountGroup → Connection → List Notice
leaving_notices m user_id ref g c =
    let (g', is_current, changes) = remove_bridge g c in
    let live = has_live_bridge_with_id (set_group m ref g') user_id c.bridge_id in
    if is_current && not live
    then announce_target_changes changes ++ announce_presence (all_phones g') c.bridge_id false
    else announce_target_changes changes

-- The beliefs after a step and the notices that its handler writes.
unfoldable pub after : {w t : World} → Beliefs → Step w t → Beliefs
unfolding hear forget
after {w} b (arrives i ip new e) = forget b i
after {w} b (checks i h at s e) = b
after {w} b (gets_group i h u at s e) = b
after {w} b (adds_bridge i h u r g c at s found own e) = hear b (joining_notices g c)
after {w} b (adds_phone i h u r g c added at s found own result e) =
    hear b (sent (phone_opened added.1))
after {w} b (removes_bridge i h u r g c at s found e) = hear b (leaving_notices w.manager u r g c)
after {w} b (removes_phone i h u r g c at s found e) =
    hear b (sent (phone_closed c (remove_phone g c).1))
after {w} b (collects i h u r at s e) = b
after {w} b (ends i h at may e) = b

-- The states of the server, with what the connections know.
pub data Told (max_per_ip max_rooms : ℕ) : World → Beliefs → Type 0 where
  begin : Told max_per_ip max_rooms (new_world max_per_ip max_rooms) no_beliefs
  moves :
      {w t : World} {b c : Beliefs}
      → Told max_per_ip max_rooms w b
      → (st : Step w t) → c ≡ after b st
      → Told max_per_ip max_rooms t c
