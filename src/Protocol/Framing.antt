-- ===== src/Protocol/Framing.antt =====
-- internal/protocol/framing.go: the version byte round an encrypted payload. The encryptor is not
-- in the repository: `Encryptor` is a parameter, `none` where a method returns an error.
use sesori_relay_server.Prelude.{
  ℕ, ◌≡◌, ◌⊎◌, inl, inr, [], ◌∷◌, Option, none, some, Text, arith, ◌==◌, if◌then◌else◌,
  Option-cases,
}

pub record Encryptor : Type 0 where
  pub encrypt : Text → Option Text
  pub decrypt : Text → Option Text

pub data FrameError : Type 0 where
  encryption_failed too_short decryption_failed : FrameError
  version_mismatch : ℕ → FrameError

pub data Framed : Type 0 where
  ok : Text → Framed
  err : FrameError → Framed

abbrev pub protocol_version : ℕ
protocol_version = 0x01

unfoldable pub frame : Text → Encryptor → Framed
frame plaintext enc = elim (enc.encrypt plaintext) [
  | none ↦ err encryption_failed
  | some encrypted ↦ ok (protocol_version ∷ encrypted)
]

-- The result of `Decrypt`, wrapped.
unfoldable pub decrypted : Option Text → Framed
decrypted none = err decryption_failed
decrypted (some plaintext) = ok plaintext

unfoldable pub unframe : Text → Encryptor → Framed
unfolding decrypted
unframe [] enc = err too_short
unframe (version ∷ rest) enc =
    if version == protocol_version
    then decrypted (enc.decrypt rest)
    else err (version_mismatch version)

-- What the key exchange gives the two ends: what one encrypts, the other decrypts.
abbrev pub Decrypts : Encryptor → Encryptor → Type 0
Decrypts enc dec =
    (plaintext ciphertext : Text)
    → enc.encrypt plaintext ≡ some ciphertext
    → dec.decrypt ciphertext ≡ some plaintext

-- If one end decrypts what the other encrypts, then Frame either reports that the encryption
-- failed, or makes a frame from which Unframe at the other end returns the plaintext.
pub unframe-frame :
    (plaintext : Text) (enc dec : Encryptor)
    → Decrypts enc dec
    → (frame plaintext enc ≡ err encryption_failed)
      ⊎ ((framed : Text) × (frame plaintext enc ≡ ok framed) × (unframe framed dec ≡ ok plaintext))
unfolding frame unframe
unframe-frame plaintext enc dec h = elim (Option-cases (enc.encrypt plaintext)) [
  | inl fails ↦ inl (ground arith)
  | inr (c, e) ↦ inr (protocol_version ∷ c, ground arith, ground (arith, h plaintext c e))
]

-- `Unframe` returns a plaintext only for the version byte 1 before what decrypts to it.
pub unframe-eq-ok :
    (bytes plaintext : Text) (enc : Encryptor)
    → unframe bytes enc ≡ ok plaintext
    → (rest : Text) × (bytes ≡ protocol_version ∷ rest) × (enc.decrypt rest ≡ some plaintext)
unfolding unframe
unframe-eq-ok [] plaintext enc h = absurd (ground arith)
unframe-eq-ok (version ∷ rest) plaintext enc h = (rest, ground arith, ground arith)
