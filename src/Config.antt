-- ===== src/Config.antt =====
-- cmd/relay/main.go: the flags and environment variables, and what the server is built with.
use sesori_relay_server.Prelude.{
  ◌≡◌, ◌≢◌, ◌↔◌, refl, inl, inr, Bool, true, false, ◌&&◌, not, arith, List, [], ◌∷◌, Option, none,
  some, Text, Text-discrete, bytes, ite, if◌then◌else◌, Bool-cases,
}
use sesori_relay_server.AccountGroup.{is_empty_text}

-- The parsed flags; `_set` is `flagWasSet`.
pub record Flags : Type 0 where
  pub addr : Text
  pub log_level : Text
  pub log_level_set : Bool
  pub auth_backend_url : Text
  pub relay_webhook_secret : Text
  pub trust_cf_connecting_ip : Bool
  pub trust_set : Bool

-- `os.Getenv`: empty for a variable that is not set.
abbrev pub Env : Type 0
Env = Text → Text

pub data LogLevel : Type 0 where
  debug info warn error : LogLevel

unfoldable pub parse_log_level : Text → LogLevel
parse_log_level s =
    ite (Text-discrete s (bytes "debug")) debug
      (ite (Text-discrete s (bytes "warn")) warn (ite (Text-discrete s (bytes "error")) error info))

-- The texts that `strconv.ParseBool` accepts.
unfoldable pub one_of : Text → List Text → Bool
one_of s [] = false
one_of s (t ∷ ts) = ite (Text-discrete s t) true (one_of s ts)

abbrev true_texts : List Text
true_texts = bytes "1" ∷ bytes "t" ∷ bytes "T" ∷ bytes "true" ∷ bytes "TRUE" ∷ bytes "True" ∷ []

abbrev false_texts : List Text
false_texts = bytes "0" ∷ bytes "f" ∷ bytes "F" ∷ bytes "false" ∷ bytes "FALSE" ∷ bytes "False" ∷ []

unfoldable pub parse_bool : Text → Option Bool
unfolding one_of
parse_bool s =
    if one_of s true_texts then some true else (if one_of s false_texts then some false else none)

-- The three results of `envBool`.
pub data EnvBool : Type 0 where
  unset invalid : EnvBool
  value : Bool → EnvBool

unfoldable pub env_value : Option Bool → EnvBool
env_value none = invalid
env_value (some b) = value b

unfoldable pub env_bool : Text → EnvBool
unfolding env_value
env_bool raw = if is_empty_text raw then unset else env_value (parse_bool raw)

pub record Config : Type 0 where
  pub addr : Text
  pub log_level : LogLevel
  pub auth_backend_url : Text
  pub relay_webhook_secret : Text
  pub trust_cf_connecting_ip : Bool
  pub auth_enabled : Bool
  pub notifications_enabled : Bool

unfoldable pub or_env : Text → Text → Text
or_env flag env = if is_empty_text flag then env else flag

unfoldable pub log_level_of : Flags → Env → Text
log_level_of flags env =
    if not flags.log_level_set && not (is_empty_text (env (bytes "LOG_LEVEL")))
    then env (bytes "LOG_LEVEL")
    else flags.log_level

-- `none`: the program exits with an error.
unfoldable pub trust_of : Flags → EnvBool → Option Bool
trust_of flags unset = some flags.trust_cf_connecting_ip
trust_of flags invalid = none
trust_of flags (value b) = some b

unfoldable pub resolve_trust : Flags → Env → Option Bool
unfolding trust_of env_bool
resolve_trust flags env =
    if flags.trust_set
    then some flags.trust_cf_connecting_ip
    else trust_of flags (env_bool (env (bytes "RELAY_TRUST_CF_CONNECTING_IP")))

unfoldable pub config_with : Flags → Env → Bool → Config
unfolding or_env log_level_of
config_with flags env trust =
    let url = or_env flags.auth_backend_url (env (bytes "AUTH_BACKEND_URL")) in
    let secret = or_env flags.relay_webhook_secret (env (bytes "RELAY_WEBHOOK_SECRET")) in
    record {
      addr = flags.addr;
      log_level = parse_log_level (log_level_of flags env);
      auth_backend_url = url;
      relay_webhook_secret = secret;
      trust_cf_connecting_ip = trust;
      auth_enabled = not (is_empty_text url);
      notifications_enabled = not (is_empty_text secret) && not (is_empty_text url);
    }

-- `main`, up to the key store; `none`: the program exits with an error.
unfoldable pub resolve_config : Flags → Env → Option Config
unfolding config_with
resolve_config flags env = elim (resolve_trust flags env) [
  | none ↦ none
  | some trust ↦ some (config_with flags env trust)
]

-- If the program starts, it listens on the address of the flag whatever the environment holds,
-- notifications are enabled only with authentication, and a backend URL, a secret, a trust setting
-- and a log level that are given as flags are used.
pub resolve_config_lem :
    (flags : Flags) (env : Env) (c : Config)
    → resolve_config flags env ≡ some c
    → (c.addr ≡ flags.addr)
      × (c.notifications_enabled ≡ true → c.auth_enabled ≡ true)
      × (flags.auth_backend_url ≢ [] → c.auth_backend_url ≡ flags.auth_backend_url)
      × (flags.relay_webhook_secret ≢ [] → c.relay_webhook_secret ≡ flags.relay_webhook_secret)
      × (flags.trust_set ≡ true → c.trust_cf_connecting_ip ≡ flags.trust_cf_connecting_ip)
      × (flags.log_level_set ≡ true → c.log_level ≡ parse_log_level flags.log_level)
unfolding resolve_config resolve_trust is_empty_text
resolve_config_lem flags env c h = (
  ground arith,
  ground arith,
  λ k. ground arith,
  λ k. ground arith,
  λ k. ground arith,
  λ k. ground arith,
)

trust_of-none :
    (flags : Flags) (raw : Text)
    → (trust_of flags (env_bool raw) ≡ none) ↔ ((raw ≢ []) × (parse_bool raw ≡ none))
unfolding trust_of env_bool is_empty_text
trust_of-none flags [] = (λ h. absurd (cc), λ (h, k). absurd (h refl))
trust_of-none flags (c ∷ cs) = (λ h. (λ e. cc, ground arith), λ (h, k). ground arith)

-- The program refuses to start exactly when the trust flag was not given and its variable is set to
-- a text that is no truth value.
pub resolve_config-none :
    (flags : Flags) (env : Env)
    → let raw = env (bytes "RELAY_TRUST_CF_CONNECTING_IP") in
      (resolve_config flags env ≡ none)
      ↔ ((flags.trust_set ≡ false) × ((raw ≢ []) × (parse_bool raw ≡ none)))
unfolding resolve_config resolve_trust
resolve_config-none flags env =
    let raw = env (bytes "RELAY_TRUST_CF_CONNECTING_IP") in
    elim (Bool-cases flags.trust_set) [
      | inl given ↦ (λ h. absurd (ground arith), λ (h, _). absurd (ground arith))
      | inr absent ↦ (
        λ h. (absent, (trust_of-none flags raw).0 (ground arith)),
        λ (_, bad). ground (arith, (trust_of-none flags raw).1 bad),
      )
    ]
