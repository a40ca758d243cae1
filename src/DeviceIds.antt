-- ===== src/DeviceIds.antt =====
-- internal/relay/handler.go: the two patterns, `^br_[A-Za-z0-9_-]{8,32}$` for a bridge id and the
-- case-insensitive pattern of a version 4 UUID for a device id, as matchers over bytes.
pub mod BridgeIds
use sesori_relay_server.Prelude.{
  ℕ, Bool, true, false, ◌&&◌, ◌||◌, List, [], ◌∷◌, Text, leb, ◌==◌, length,
}

abbrev between : ℕ → ℕ → ℕ → Bool
between lo hi c = leb lo c && leb c hi

-- `[A-Za-z0-9_-]`.
unfoldable pub is_id_char : ℕ → Bool
is_id_char c =
    between b'A' b'Z' c || between b'a' b'z' c || between b'0' b'9' c || c == b'_' || c == b'-'

unfoldable pub all_id_chars : Text → Bool
unfolding is_id_char
all_id_chars [] = true
all_id_chars (c ∷ cs) = is_id_char c && all_id_chars cs

unfoldable pub is_bridge_id : Text → Bool
unfolding all_id_chars
is_bridge_id (a ∷ b ∷ c ∷ rest) =
    a == b'b'
    && b == b'r'
    && c == b'_'
    && leb 8 (length rest)
    && leb (length rest) 32
    && all_id_chars rest
is_bridge_id _ = false

-- `[0-9a-f]`, case-insensitive.
unfoldable pub is_hex : ℕ → Bool
is_hex c = between b'0' b'9' c || between b'a' b'f' c || between b'A' b'F' c

-- `[89ab]`, case-insensitive.
unfoldable pub is_variant : ℕ → Bool
is_variant c = c == b'8' || c == b'9' || c == b'a' || c == b'b' || c == b'A' || c == b'B'

-- What one position of the pattern admits.
pub data Slot : Type 0 where
  hex dash four variant : Slot

unfoldable pub fits : Slot → ℕ → Bool
unfolding is_hex is_variant
fits hex c = is_hex c
fits dash c = c == b'-'
fits four c = c == b'4'
fits variant c = is_variant c

unfoldable pub matches : List Slot → Text → Bool
unfolding fits
matches [] [] = true
matches [] (_ ∷ _) = false
matches (_ ∷ _) [] = false
matches (slot ∷ slots) (c ∷ cs) = fits slot c && matches slots cs

abbrev device_id_slots : List Slot
device_id_slots =
    hex ∷ hex ∷ hex ∷ hex ∷ hex ∷ hex ∷ hex ∷ hex ∷ dash ∷ hex ∷ hex ∷ hex ∷ hex ∷ dash ∷ four ∷ hex
    ∷ hex ∷ hex ∷ dash ∷ variant ∷ hex ∷ hex ∷ hex ∷ dash ∷ hex ∷ hex ∷ hex ∷ hex ∷ hex ∷ hex ∷ hex
    ∷ hex ∷ hex ∷ hex ∷ hex ∷ hex ∷ []

unfoldable pub is_device_id : Text → Bool
unfolding matches
is_device_id id = matches device_id_slots id
