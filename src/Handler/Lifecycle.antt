-- ===== src/Handler/Lifecycle.antt =====
-- internal/relay/handler.go: how `handleBridge` and `handlePhone` begin and end, with the group's
-- methods that they call. No other handler runs in between: `AllPhones` reads the group that the
-- method before it left.
pub mod Takeover
pub mod Phones
use sesori_relay_server.Prelude.{ℕ, Bool, List, [], ◌∷◌, Option, none, some, Text}
use sesori_relay_server.AccountGroup.{
  Connection, AccountGroup, Registered, add_bridge, remove_bridge, add_phone, remove_phone,
  all_phones,
}
use sesori_relay_server.Announce.{Notice}
use sesori_relay_server.Handler.Bridge.{BridgeSession, bridge_opened, bridge_closed, takeover}
use sesori_relay_server.Handler.Effects.{
  Effect, notice, frame, close_now, take_over, close, cancel, report_status, report_control,
}
use sesori_relay_server.Handler.Phone.{phone_opened, phone_closed}

-- The effects of the handler's own goroutine.
unfoldable pub open_bridge : AccountGroup → BridgeSession → Text → AccountGroup × List Effect
open_bridge g s now =
    let (g', added) = add_bridge g s.conn in (g', bridge_opened s added (all_phones g') now)

-- `live` is `HasLiveBridgeWithID`.
unfoldable pub close_bridge :
    AccountGroup → BridgeSession → Bool → Text → AccountGroup × List Effect
close_bridge g s live now =
    let (g', is_current, changes) = remove_bridge g s.conn in
    (g', bridge_closed s is_current changes live (all_phones g') now)

-- What a phone's handler does with the result of `AddPhone`, and the phone with its id.
unfoldable pub opened_phone : AccountGroup × Registered → AccountGroup × Registered × List Effect
opened_phone (g, added) = (g, added, phone_opened added)

-- `none`: the search for a free id ran out of fuel.
unfoldable pub open_phone :
    AccountGroup → Connection → Option (AccountGroup × Registered × List Effect)
unfolding opened_phone
open_phone g phone = elim (add_phone g phone) [ none ↦ none | some r ↦ some (opened_phone r) ]

unfoldable pub close_phone : AccountGroup → Connection → AccountGroup × List Effect
close_phone g phone = let (g', bridge) = remove_phone g phone in (g', phone_closed phone bridge)

-- What the goroutines do that are started for a takeover.
unfoldable pub takeovers : List Effect → List (List Effect)
unfolding takeover
takeovers [] = []
takeovers (take_over c ∷ es) = takeover c ∷ takeovers es
takeovers (notice _ ∷ es) = takeovers es
takeovers (frame _ _ ∷ es) = takeovers es
takeovers (close_now _ ∷ es) = takeovers es
takeovers (close _ _ ∷ es) = takeovers es
takeovers (cancel _ ∷ es) = takeovers es
takeovers (report_status _ ∷ es) = takeovers es
takeovers (report_control _ ∷ es) = takeovers es

-- The notices among the effects.
unfoldable pub sent : List Effect → List Notice
sent [] = []
sent (notice n ∷ es) = n ∷ sent es
sent (frame _ _ ∷ es) = sent es
sent (close _ _ ∷ es) = sent es
sent (cancel _ ∷ es) = sent es
sent (close_now _ ∷ es) = sent es
sent (take_over _ ∷ es) = sent es
sent (report_status _ ∷ es) = sent es
sent (report_control _ ∷ es) = sent es
