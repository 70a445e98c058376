-- ===== src/Config.antt =====
-- crates/solvela-client/src/config.rs: the configuration and its builder. A duration is a number of
-- nanoseconds.
pub mod Laws
use mathlib.Core.List.{foldl}
use solvela_client.Base.{
  List, ℕ, ◌*◌, String, Bool, true, false, Option, none, some, unwrap_or, or_option, ◌==◌, code,
  nat_eq,
}
use solvela_client.Text.{trim_end_matches}

abbrev pub from_secs : ℕ → ℕ
from_secs n = n * 1_000_000_000

abbrev pub from_mins : ℕ → ℕ
from_mins n = from_secs (n * 60)

abbrev pub default_max_payment_amount_atomic : ℕ
default_max_payment_amount_atomic = 10_000_000

pub record ClientConfig : Type 0 where
  pub gateway_url : String
  pub rpc_url : String
  pub prefer_escrow : Bool
  pub timeout : ℕ
  pub expected_recipient : Option String
  pub max_payment_amount : Option ℕ
  pub enable_cache : Bool
  pub enable_sessions : Bool
  pub session_ttl : ℕ
  pub enable_quality_check : Bool
  pub max_quality_retries : ℕ
  pub free_fallback_model : Option String

abbrev pub default_config : ClientConfig
default_config = record {
  gateway_url = "http://localhost:8402";
  rpc_url = "https://api.mainnet-beta.solana.com";
  prefer_escrow = false;
  timeout = from_mins 3;
  expected_recipient = none;
  max_payment_amount = some default_max_payment_amount_atomic;
  enable_cache = false;
  enable_sessions = false;
  session_ttl = from_mins 30;
  enable_quality_check = false;
  max_quality_retries = 1;
  free_fallback_model = none;
}

pub record ClientBuilder : Type 0 where
  pub gateway_url : Option String
  pub rpc_url : Option String
  pub prefer_escrow : Option Bool
  pub timeout : Option ℕ
  pub expected_recipient : Option String
  pub max_payment_amount : Option ℕ
  pub enable_cache : Option Bool
  pub enable_sessions : Option Bool
  pub session_ttl : Option ℕ
  pub enable_quality_check : Option Bool
  pub max_quality_retries : Option ℕ
  pub free_fallback_model : Option String

abbrev pub new_builder : ClientBuilder
new_builder = record {
  gateway_url = none;
  rpc_url = none;
  prefer_escrow = none;
  timeout = none;
  expected_recipient = none;
  max_payment_amount = none;
  enable_cache = none;
  enable_sessions = none;
  session_ttl = none;
  enable_quality_check = none;
  max_quality_retries = none;
  free_fallback_model = none;
}

-- `url.trim_end_matches('/')`
unfoldable pub trim_slashes : String → String
unfolding trim_end_matches nat_eq
trim_slashes url = trim_end_matches (λ c. code c == b'/') url

-- One call of a setter of the builder.
pub data Setting : Type 0 where
  gateway_url : String → Setting
  rpc_url : String → Setting
  prefer_escrow : Bool → Setting
  timeout : ℕ → Setting
  expected_recipient : String → Setting
  max_payment_amount : ℕ → Setting
  enable_cache : Bool → Setting
  enable_sessions : Bool → Setting
  session_ttl : ℕ → Setting
  enable_quality_check : Bool → Setting
  max_quality_retries : ℕ → Setting
  free_fallback_model : String → Setting

-- The twelve setters.
unfoldable pub set : ClientBuilder → Setting → ClientBuilder
set b (Setting.gateway_url url) = record b { gateway_url = some (trim_slashes url) }
set b (Setting.rpc_url url) = record b { rpc_url = some url }
set b (Setting.prefer_escrow prefer) = record b { prefer_escrow = some prefer }
set b (Setting.timeout limit) = record b { timeout = some limit }
set b (Setting.expected_recipient recipient) = record b { expected_recipient = some recipient }
set b (Setting.max_payment_amount max) = record b { max_payment_amount = some max }
set b (Setting.enable_cache enable) = record b { enable_cache = some enable }
set b (Setting.enable_sessions enable) = record b { enable_sessions = some enable }
set b (Setting.session_ttl ttl) = record b { session_ttl = some ttl }
set b (Setting.enable_quality_check enable) = record b { enable_quality_check = some enable }
set b (Setting.max_quality_retries max) = record b { max_quality_retries = some max }
set b (Setting.free_fallback_model model) = record b { free_fallback_model = some model }

unfoldable pub build_config : ClientBuilder → ClientConfig
build_config b = record {
  gateway_url = unwrap_or b.gateway_url default_config.gateway_url;
  rpc_url = unwrap_or b.rpc_url default_config.rpc_url;
  prefer_escrow = unwrap_or b.prefer_escrow default_config.prefer_escrow;
  timeout = unwrap_or b.timeout default_config.timeout;
  expected_recipient = or_option b.expected_recipient default_config.expected_recipient;
  max_payment_amount = or_option b.max_payment_amount default_config.max_payment_amount;
  enable_cache = unwrap_or b.enable_cache default_config.enable_cache;
  enable_sessions = unwrap_or b.enable_sessions default_config.enable_sessions;
  session_ttl = unwrap_or b.session_ttl default_config.session_ttl;
  enable_quality_check = unwrap_or b.enable_quality_check default_config.enable_quality_check;
  max_quality_retries = unwrap_or b.max_quality_retries default_config.max_quality_retries;
  free_fallback_model = or_option b.free_fallback_model default_config.free_fallback_model;
}

-- A chain of setter calls on a new builder, then `build_config`.
unfoldable pub configure : List Setting → ClientConfig
unfolding build_config set
configure settings = build_config (foldl set new_builder settings)
