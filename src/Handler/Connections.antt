-- ===== src/Handler/Connections.antt =====
-- internal/relay/handler.go: `newConnectionID` and `startPingLoop`. `rand.Read` is a parameter.
use sesori_relay_server.Prelude.{
  ℕ, zero, suc, ◌+◌, ◌*◌, ◌/◌, ◌%◌, ◌<◌, ◌≤◌, ◌≡◌, ◌≢◌, ◌↔◌, ◌⊎◌, ◌∙◌, refl, ap, subst, Bool, true,
  false, arith, List, [], ◌∷◌, ◌++◌, Option, none, some, Text, length, ltb, if◌then◌else◌, sym,
  Option-cases, inl, inr,
}

-- A digit of `hex.EncodeToString`.
unfoldable pub hex_digit : ℕ → ℕ
hex_digit n = if ltb n 10 then 48 + n else 87 + n

unfoldable pub hex_encode : Text → Text
unfolding hex_digit
hex_encode [] = []
hex_encode (b ∷ bs) = hex_digit (b / 16) ∷ hex_digit (b % 16) ∷ hex_encode bs

-- `rand.Read`: what it fills a buffer of so many bytes with, `none` for an error.
abbrev pub Read : Type 0
Read = ℕ → Option Text

-- The buffer has 16 bytes.
unfoldable pub new_connection_id : Read → Text
new_connection_id read = elim (read 16) [ none ↦ [] | some value ↦ hex_encode value ]

-- A round of the loop: the context is done, or the ticker fires, and the ping succeeds or not.
pub data Round : Type 0 where
  done : Round
  pinged : Bool → Round

pub data PingLoop : Type 0 where
  waiting : PingLoop
  returned : Bool → PingLoop  -- whether it cancelled the connection

unfoldable pub ping_loop : List Round → PingLoop
ping_loop [] = waiting
ping_loop (done ∷ rounds) = returned false
ping_loop (pinged ok ∷ rounds) = let rest = ping_loop rounds in if ok then rest else returned true

-- Every byte is below 256.
abbrev pub IsBytes : Text → Type 0
IsBytes [] = Unit {0}
IsBytes (b ∷ bs) = (b < 256) × IsBytes bs

-- A digit or one of the letters from a to f.
abbrev pub IsHexDigit : ℕ → Type 0
IsHexDigit c = ((48 ≤ c) × (c ≤ 57)) ⊎ ((97 ≤ c) × (c ≤ 102))

abbrev pub IsHex : Text → Type 0
IsHex [] = Unit {0}
IsHex (c ∷ cs) = IsHexDigit c × IsHex cs

hex_digit-injective : (m n : ℕ) → m < 16 → n < 16 → hex_digit m ≡ hex_digit n → m ≡ n
unfolding hex_digit
hex_digit-injective m n h k e = ground arith

hex_digit-IsHexDigit : (n : ℕ) → n < 16 → IsHexDigit (hex_digit n)
unfolding hex_digit
hex_digit-IsHexDigit n h = ground arith

-- A byte is its two digits.
byte_digits :
    (x y : ℕ)
    → x < 256
    → y < 256
    → hex_digit (x / 16) ≡ hex_digit (y / 16)
    → hex_digit (x % 16) ≡ hex_digit (y % 16)
    → x ≡ y
byte_digits x y h k high low =
    let high' : x / 16 ≡ y / 16 =
      hex_digit-injective (x / 16) (y / 16) (omega arith) (omega arith) high in
    let low' : x % 16 ≡ y % 16 =
      hex_digit-injective (x % 16) (y % 16) (omega arith) (omega arith) low in
    omega arith

hex_encode-injective :
    (xs ys : Text) → IsBytes xs → IsBytes ys → hex_encode xs ≡ hex_encode ys → xs ≡ ys
unfolding hex_encode
hex_encode-injective [] [] h k e = refl
hex_encode-injective [] (y ∷ ys) h k e = cc
hex_encode-injective (x ∷ xs) [] h k e = cc
hex_encode-injective (x ∷ xs) (y ∷ ys) h k e =
    ground (arith, hex_encode-injective xs ys h.1 k.1, byte_digits x y h.0 k.0)

hex_encode-length : (xs : Text) → length (hex_encode xs) ≡ 2 * length xs
unfolding hex_encode
hex_encode-length [] = refl
hex_encode-length (x ∷ xs) = omega (arith, hex_encode-length xs)

hex_encode-IsHex : (xs : Text) → IsBytes xs → IsHex (hex_encode xs)
unfolding hex_encode
hex_encode-IsHex [] h = tt
hex_encode-IsHex (x ∷ xs) h = (
  hex_digit-IsHexDigit (x / 16) (omega (arith, h.0)),
  (hex_digit-IsHexDigit (x % 16) (omega arith), hex_encode-IsHex xs h.1),
)

-- What is documented of `rand.Read`: it fills the whole buffer, or fails.
abbrev pub Fills : Read → Type 0
Fills read = (n : ℕ) (x : Text) → read n ≡ some x → (length x ≡ n) × IsBytes x

read_id : (read : Read) (x : Text) → read 16 ≡ some x → new_connection_id read ≡ hex_encode x
unfolding new_connection_id
read_id read x e = rw (e, new_connection_id) refl

failed_id : (read : Read) → read 16 ≡ none → new_connection_id read ≡ []
unfolding new_connection_id
failed_id read e = rw (e, new_connection_id) refl

no_id-none :
    (read : Read) → Fills read → (x : Text) → read 16 ≡ some x → new_connection_id read ≢ []
no_id-none read fills x is e =
    ground (arith, fills 16 x is, hex_encode-length x, ap length (sym (read_id read x is) ∙ e))

-- The empty id stands for an error.
no_id : (read : Read) → Fills read → new_connection_id read ≡ [] → read 16 ≡ none
no_id read fills e = elim (Option-cases (read 16)) [
  | inl nothing ↦ nothing
  | inr (x, is) ↦ absurd (no_id-none read fills x is e)
]

-- Let two sources of random bytes fill a buffer of any size with as many bytes, or fail. The
-- connection id is empty exactly if the source fails on 16 bytes; otherwise it is 32 digits or
-- letters from a to f; and two connection ids are equal only if the sources gave the same 16 bytes.
pub new_connection_id_lem :
    (read other : Read)
    → Fills read
    → Fills other
    → ((new_connection_id read ≡ []) ↔ (read 16 ≡ none))
      × (new_connection_id read ≢ []
          → (length (new_connection_id read) ≡ 32) × IsHex (new_connection_id read))
      × (new_connection_id read ≡ new_connection_id other → read 16 ≡ other 16)
new_connection_id_lem read other fills fills' = elim (Option-cases (read 16)) [
  | inl nothing ↦
      let failed = failed_id read nothing in
      (
        (λ e. nothing, λ e. failed),
        λ some_id. absurd (some_id failed),
        λ same_id. nothing ∙ sym (no_id other fills' (sym same_id ∙ failed)),
      )
  | inr (x, is) ↦
      let (size, bytes) = fills 16 x is in
      let id = read_id read x is in
      let long : length (hex_encode x) ≡ 32 = omega (arith, hex_encode-length x) in
      (
        (no_id read fills, λ e. ground (arith, is)),
        λ _. (ap length id ∙ long, subst IsHex (sym id) (hex_encode-IsHex x bytes)),
        λ same_id. elim (Option-cases (other 16)) [
          | inl nothing ↦ absurd (no_id-none read fills x is (same_id ∙ failed_id other nothing))
          | inr (y, is_y) ↦
              let same_hex = sym id ∙ same_id ∙ read_id other y is_y in
              is ∙ ap some (hex_encode-injective x y bytes (fills' 16 y is_y).1 same_hex) ∙ sym is_y
        ],
      )
]

-- Rounds in which every ping is answered.
abbrev pub answered : ℕ → List Round
answered zero = []
answered (suc n) = pinged true ∷ answered n

abbrev FirstFailure : List Round → Type 0
FirstFailure rounds = (n : ℕ) × (rest : List Round) × (rounds ≡ answered n ++ (pinged false ∷ rest))

answered-returned :
    (n : ℕ) (rest : List Round) → ping_loop (answered n ++ (pinged false ∷ rest)) ≡ returned true
unfolding ping_loop
answered-returned zero rest = refl
answered-returned (suc n) rest = answered-returned n rest

returned-FirstFailure :
    (rounds : List Round) → ping_loop rounds ≡ returned true → FirstFailure rounds
unfolding ping_loop
returned-FirstFailure [] e = absurd (cc)
returned-FirstFailure (done ∷ rounds) e = absurd (cc)
returned-FirstFailure (pinged false ∷ rounds) e = (0, rounds, refl)
returned-FirstFailure (pinged true ∷ rounds) e =
    let (n, rest, split) = returned-FirstFailure rounds e in
    (suc n, rest, ap (λ r. pinged true ∷ r) split)

-- The ping loop cancels the connection exactly if some ping fails and every round before it was a
-- ping that succeeded.
pub ping_loop_iff :
    (rounds : List Round)
    → (ping_loop rounds ≡ returned true)
      ↔ ((n : ℕ) × (rest : List Round) × (rounds ≡ answered n ++ (pinged false ∷ rest)))
ping_loop_iff rounds =
    (returned-FirstFailure rounds, λ (n, rest, e). ap ping_loop e ∙ answered-returned n rest)
