-- ===== src/DeviceIds/BridgeIds.antt =====
-- internal/relay/handler.go: the language of `bridgeIDRegexp`.
use sesori_relay_server.Prelude.{
  ℕ, ◌≤◌, ◌≡◌, ◌↔◌, ◌⊎◌, refl, subst, arith, true, [], ◌∷◌, ◌++◌, Text, bytes, length, All,
}
use sesori_relay_server.DeviceIds.{is_id_char, all_id_chars, is_bridge_id}

abbrev IsBetween : ℕ → ℕ → ℕ → Type 0
IsBetween lo hi c = (lo ≤ c) × (c ≤ hi)

-- An ASCII letter, a digit, an underscore or a dash.
abbrev pub IsIdChar : ℕ → Type 0
IsIdChar c = IsBetween 65 90 c ⊎ (IsBetween 97 122 c ⊎ (IsBetween 48 57 c ⊎ ((c ≡ 95) ⊎ (c ≡ 45))))

is_id_char_iff : (c : ℕ) → (is_id_char c ≡ true) ↔ IsIdChar c
unfolding is_id_char
is_id_char_iff c = (λ h. ground arith, λ h. ground arith)

all_id_chars_iff : (cs : Text) → (all_id_chars cs ≡ true) ↔ All IsIdChar cs
unfolding all_id_chars
all_id_chars_iff [] = (λ h. tt, λ h. refl)
all_id_chars_iff (c ∷ cs) =
    let (sound, complete) = all_id_chars_iff cs in
    (
      λ h. ((is_id_char_iff c).0 (ground arith), sound (ground arith)),
      λ (h, k). ground (arith, (is_id_char_iff c).1 h, complete k),
    )

abbrev pub IsBridgeId : Text → Type 0
IsBridgeId id =
    (rest : Text) × (id ≡ bytes "br_" ++ rest)
    × (8 ≤ length rest)
    × (length rest ≤ 32)
    × All IsIdChar rest

-- A text passes the bridge id test exactly if it is br_ followed by 8 to 32 characters, each an
-- ASCII letter, a digit, an underscore or a dash.
pub is_bridge_id_iff : (id : Text) → (is_bridge_id id ≡ true) ↔ IsBridgeId id
unfolding is_bridge_id
is_bridge_id_iff [] = (λ h. absurd (cc), λ (rest, e, _, _, _). absurd (cc))
is_bridge_id_iff (a ∷ []) = (λ h. absurd (cc), λ (rest, e, _, _, _). absurd (cc))
is_bridge_id_iff (a ∷ b ∷ []) = (λ h. absurd (cc), λ (rest, e, _, _, _). absurd (cc))
is_bridge_id_iff (a ∷ b ∷ c ∷ rest) =
    let (sound, complete) = all_id_chars_iff rest in
    (
      λ h. (rest, ground arith, ground arith, ground arith, sound (ground arith)),
      λ (r, e, low, high, chars).
          let same_rest : r ≡ rest = cc in
          let good : all_id_chars rest ≡ true = complete (subst (All IsIdChar) same_rest chars) in
          let long : 8 ≤ length rest = subst (λ s. 8 ≤ length s) same_rest low in
          let short : length rest ≤ 32 = subst (λ s. length s ≤ 32) same_rest high in
          let first : a ≡ 98 = cc in
          let second : b ≡ 114 = cc in
          let third : c ≡ 95 = cc in ground (arith, good, long, short, first, second, third),
    )
