-- ===== src/Protocol/CloseCodes.antt =====
-- internal/protocol/closecodes.go.
use sesori_relay_server.Prelude.{ℕ}

abbrev pub close_auth_failure : ℕ
close_auth_failure = 4001

abbrev pub close_auth_required : ℕ
close_auth_required = 4002

abbrev pub close_room_full : ℕ
close_room_full = 4003

abbrev pub close_room_not_found : ℕ
close_room_not_found = 4004

abbrev pub close_account_full : ℕ
close_account_full = 4005

abbrev pub close_bridge_revoked : ℕ
close_bridge_revoked = 4006

abbrev pub close_bridge_replaced : ℕ
close_bridge_replaced = 4007
