-- ===== src/Handler/Effects.antt =====
-- internal/relay/handler.go: what a handler does besides changing its group: writes, closes and
-- reports. A list has the effects of one goroutine in the order of the code; the start of another
-- goroutine is one effect, and what that goroutine does is a list of its own.
use sesori_relay_server.Prelude.{ℕ, List, map, Text}
use sesori_relay_server.AccountGroup.{Connection}
use sesori_relay_server.Announce.{Notice}
use sesori_relay_server.Notifications.{BridgeStatusPayload}

pub data Effect : Type 0 where
  -- `writeControl`; what a write does that fails is `close_now`.
  notice : Notice → Effect
  -- `writeOrDrop` of a binary message.
  frame : Connection → Text → Effect
  -- The `CloseNow` of `writeOrDrop`, on a peer whose write failed.
  close_now : Connection → Effect
  -- The start of the goroutine of a takeover, for the displaced connection.
  take_over : Connection → Effect
  -- `conn.Close` with a code.
  close : Connection → ℕ → Effect
  -- The connection's context is cancelled.
  cancel : Connection → Effect
  -- The start of a goroutine with `NotifyBridgeStatus`.
  report_status : BridgeStatusPayload → Effect
  -- `reportControl`.
  report_control : BridgeStatusPayload → Effect

-- A message of a peer.
pub data Incoming : Type 0 where
  text binary : Text → Incoming

abbrev pub notices : List Notice → List Effect
notices = map notice
