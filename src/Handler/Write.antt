-- ===== src/Handler/Write.antt =====
-- internal/relay/handler.go: `writeOrDrop`. The result of the write and the contexts' states are
-- what the environment answers.
use sesori_relay_server.Prelude.{
  ℕ, ◌+◌, ◌*◌, ◌/◌, ◌^◌, ◌≤◌, ◌<◌, ◌≡◌, ◌⊎◌, Bool, true, false, ◌||◌, not, arith, if◌then◌else◌,
}

-- Nanoseconds, as `time.Duration` counts them.
abbrev pub second : ℕ
second = 1000000000

abbrev pub write_timeout : ℕ
write_timeout = 5 * second

abbrev pub write_allowance_bytes_per_second : ℕ
write_allowance_bytes_per_second = 64 * 1024

abbrev pub max_message_size : ℕ
max_message_size = 64 * 1024 * 1024

-- What `conn.Conn.Write` returns: no error, `net.ErrClosed`, or another error.
pub data WriteResult : Type 0 where
  written net_closed failed : WriteResult

unfoldable pub write_deadline : ℕ → ℕ
write_deadline size = write_timeout + size * second / write_allowance_bytes_per_second

-- Whether a warning is logged and whether the connection is closed.
pub record WriteOutcome : Type 0 where
  pub warned : Bool
  pub dropped : Bool

abbrev is_written : WriteResult → Bool
is_written written = true
is_written net_closed = false
is_written failed = false

abbrev is_net_closed : WriteResult → Bool
is_net_closed net_closed = true
is_net_closed written = false
is_net_closed failed = false

-- `writer_done` is `ctx.Err() != nil`, `expired` is `writeCtx.Err() != nil`.
unfoldable pub write_or_drop : WriteResult → Bool → Bool → WriteOutcome
write_or_drop result writer_done expired =
    if is_written result || writer_done
    then record { warned = false; dropped = false }
    else record { warned = expired || not (is_net_closed result); dropped = true }

-- writeOrDrop drops the peer exactly when the write failed, be it with net.ErrClosed or another
-- error, while the writer's own context was live; and it warns only about a peer that it drops.
pub write_or_drop_lem :
    (result : WriteResult) (writer_done expired : Bool)
    → let o = write_or_drop result writer_done expired in
      ((o.dropped ≡ true → ((result ≡ net_closed) ⊎ (result ≡ failed)) × (writer_done ≡ false))
        × (((result ≡ net_closed) ⊎ (result ≡ failed)) → writer_done ≡ false → o.dropped ≡ true)
        × (o.warned ≡ true → o.dropped ≡ true))
unfolding write_or_drop
write_or_drop_lem written d e = (λ h. ground arith, λ h k. ground arith, λ h. ground arith)
write_or_drop_lem net_closed d e = (λ h. ground arith, λ h k. ground arith, λ h. ground arith)
write_or_drop_lem failed d e = (λ h. ground arith, λ h k. ground arith, λ h. ground arith)

-- For any message that the read limit lets through, with the two bytes in front, the deadline is
-- computed without overflow of the 64-bit duration, is at least the fixed timeout, and is at most
-- 1030 seconds.
pub write_deadline_bounds :
    (size : ℕ)
    → size ≤ max_message_size + 2
    → (size * second < 2 ^ 63)
      × (write_timeout ≤ write_deadline size)
      × (write_deadline size < 1030 * second)
unfolding write_deadline
write_deadline_bounds size h = (omega arith, omega arith, omega arith)
