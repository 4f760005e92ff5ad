-- ===== src/Settings.antt =====
-- internal/config/config.go: the settings of the program and how an error of the environment names
-- its variable. env.Parse is outside of the repository: what it returns is a parameter.
pub mod Tags
use listener_go.Prelude.{
  ℤ, Text, codes, eq_text, ◌==◌, Bool, Option, none, some, List, [], ◌∷◌, Result, ok, err,
  if◌then◌else◌,
}

pub record Config : Type 0 where
  pub database_url : Text
  pub ws_target : Text
  pub rpc_max_retries : ℤ
  pub rpc_retry_base_delay_ms : ℤ
  pub max_blocks_per_poll : ℤ
  pub block_delay_ms : ℤ
  pub reconnect_interval_ms : ℤ
  pub drain_timeout_ms : ℤ
  pub manager_poll_interval_ms : ℤ
  pub http_addr : Text
  pub buffer_stats_interval_s : ℤ
  pub publisher_require_ack : Bool
  pub publisher_ack_timeout_ms : ℤ
  pub publisher_max_in_flight : ℤ
  pub audit_enabled : Bool
  pub audit_interval_s : ℤ
  pub audit_window_blocks : ℤ
  pub audit_safety_margin : ℤ
  pub audit_samples_per_cycle : ℤ
  pub eerc_auditor_private_key : Text
  pub log_level : Text

-- A field of the struct: its Go name, its tag `env`, and its tag `envDefault`.
pub record Field : Type 0 where
  pub name : Text
  pub tag : Text
  pub standard : Option Text

abbrev field : Text → Text → Field
field name tag = record { name = name; tag = tag; standard = none }

abbrev field_or : Text → Text → Text → Field
field_or name tag standard = record { name = name; tag = tag; standard = some standard }

unfoldable pub config_fields : List Field
config_fields =
    field (codes "DatabaseURL") (codes "DATABASE_URL,required")
    ∷ field (codes "WSTarget") (codes "WS_TARGET,required")
    ∷ field_or (codes "RPCMaxRetries") (codes "RPC_MAX_RETRIES") (codes "5")
    ∷ field_or (codes "RPCRetryBaseDelayMs") (codes "RPC_RETRY_BASE_DELAY_MS") (codes "1000")
    ∷ field_or (codes "MaxBlocksPerPoll") (codes "MAX_BLOCKS_PER_POLL") (codes "50")
    ∷ field_or (codes "BlockDelayMs") (codes "BLOCK_DELAY_MS") (codes "100")
    ∷ field_or (codes "ReconnectIntervalMs") (codes "RECONNECT_INTERVAL_MS") (codes "3000")
    ∷ field_or (codes "DrainTimeoutMs") (codes "DRAIN_TIMEOUT_MS") (codes "5000")
    ∷ field_or (codes "ManagerPollIntervalMs") (codes "MANAGER_POLL_INTERVAL_MS") (codes "300000")
    ∷ field_or (codes "HTTPAddr") (codes "HTTP_ADDR") (codes ":8080")
    ∷ field_or (codes "BufferStatsIntervalS") (codes "BUFFER_STATS_INTERVAL_S") (codes "15")
    ∷ field_or (codes "PublisherRequireACK") (codes "PUBLISHER_REQUIRE_ACK") (codes "false")
    ∷ field_or (codes "PublisherACKTimeoutMs") (codes "PUBLISHER_ACK_TIMEOUT_MS") (codes "30000")
    ∷ field_or (codes "PublisherMaxInFlight") (codes "PUBLISHER_MAX_IN_FLIGHT") (codes "100")
    ∷ field_or (codes "AuditEnabled") (codes "AUDIT_ENABLED") (codes "true")
    ∷ field_or (codes "AuditIntervalS") (codes "AUDIT_INTERVAL_S") (codes "3600")
    ∷ field_or (codes "AuditWindowBlocks") (codes "AUDIT_WINDOW_BLOCKS") (codes "1000")
    ∷ field_or (codes "AuditSafetyMargin") (codes "AUDIT_SAFETY_MARGIN") (codes "50")
    ∷ field_or (codes "AuditSamplesPerCycle") (codes "AUDIT_SAMPLES_PER_CYCLE") (codes "5")
    ∷ field (codes "EERCAuditorPrivateKey") (codes "EERC_AUDITOR_PRIVATE_KEY")
    ∷ field_or (codes "LogLevel") (codes "LOG_LEVEL") (codes "warn")
    ∷ []

-- reflect's FieldByName
unfoldable pub field_by_name : Text → List Field → Option Field
field_by_name name [] = none
field_by_name name (f ∷ fs) = if eq_text f.name name then some f else field_by_name name fs

-- The text before the first comma.
unfoldable pub before_comma : Text → Text
before_comma [] = []
before_comma (c ∷ s) = let rest = before_comma s in if c == b',' then [] else c ∷ rest

tag_or_name : Text → Text → Text
tag_or_name name [] = name
tag_or_name name (c ∷ tag) = c ∷ tag

env_tag_of_field : Text → Option Field → Text
unfolding tag_or_name
env_tag_of_field name none = name
env_tag_of_field name (some f) = tag_or_name name (before_comma f.tag)

unfoldable pub env_tag_of : Text → Text
unfolding env_tag_of_field
env_tag_of name = env_tag_of_field name (field_by_name name config_fields)

-- What errors.As finds in an error of env.Parse: the key of a VarIsNotSetError, the field and the
-- message of a ParseError; and the text of the error.
pub record ParseFailure : Type 0 where
  pub not_set : Option Text
  pub parse_error : Option (Text × Text)
  pub text : Text

pub record ConfigError : Type 0 where
  pub key : Text
  pub msg : Text

of_parse_error : Option (Text × Text) → Text → ConfigError
of_parse_error none text = record { key = codes "ENV"; msg = text }
of_parse_error (some (name, msg)) text = record { key = env_tag_of name; msg = msg }

unfoldable pub to_config_error : ParseFailure → ConfigError
unfolding of_parse_error
to_config_error e = elim e.not_set [
  | some key ↦ record { key = key; msg = codes "required" }
  | none ↦ of_parse_error e.parse_error e.text
]

unfoldable pub load : Result ParseFailure Config → Result ConfigError Config
load (ok cfg) = ok cfg
load (err e) = err (to_config_error e)
