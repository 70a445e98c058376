-- ===== src/Config/Laws.antt =====
-- What a chain of calls on the builder of crates/solvela-client/src/config.rs builds.
use mathlib.Core.List.{foldl}
use solvela_client.Base.{
  ℕ, String, Char, code, Option, none, some, List, [], ◌∷◌, ◌≡◌, ◌≢◌, refl, arith, ◌==◌, nat_eq,
  unwrap_or,
}
use solvela_client.Text.{last_char}
use solvela_client.Text.Laws.{last_char-trim_end_matches}
use solvela_client.Config.{
  ClientBuilder, Setting, new_builder, default_config, trim_slashes, set, configure,
  default_max_payment_amount_atomic,
}

-- Which setter a call is of.
unfoldable pub kind : Setting → ℕ
kind (Setting.gateway_url x) = 0
kind (Setting.rpc_url x) = 1
kind (Setting.prefer_escrow x) = 2
kind (Setting.timeout x) = 3
kind (Setting.expected_recipient x) = 4
kind (Setting.max_payment_amount x) = 5
kind (Setting.enable_cache x) = 6
kind (Setting.enable_sessions x) = 7
kind (Setting.session_ttl x) = 8
kind (Setting.enable_quality_check x) = 9
kind (Setting.max_quality_retries x) = 10
kind (Setting.free_fallback_model x) = 11

-- The payment cap of the last call that sets one.
abbrev cap_of : Option ℕ → Setting → Option ℕ
cap_of old (Setting.max_payment_amount max) = some max
cap_of old _ = old

unfoldable pub last_cap : List Setting → Option ℕ
last_cap = foldl cap_of none

abbrev url_of : Option String → Setting → Option String
url_of old (Setting.gateway_url url) = some url
url_of old _ = old

-- The gateway of the last call that sets one.
unfoldable pub last_gateway : List Setting → Option String
last_gateway = foldl url_of none

-- Calls of two different setters commute.
pub set-set :
    (b : ClientBuilder) (s t : Setting) → kind s ≢ kind t → set (set b s) t ≡ set (set b t) s
unfolding set kind
set-set b s t h = ground arith

foldl-set-cap :
    (b : ClientBuilder) (ss : List Setting)
    → (foldl set b ss).max_payment_amount ≡ foldl cap_of b.max_payment_amount ss
foldl-set-cap b [] = refl
foldl-set-cap b (s ∷ ss) = rw (foldl-set-cap (set b s) ss, cap_step b s)
  where
    cap_step :
        (b : ClientBuilder) (s : Setting)
        → (set b s).max_payment_amount ≡ cap_of b.max_payment_amount s
    cap_step b s = unfold set in ground arith

-- Every configuration that the builder builds has a payment cap: that of the last call of
-- `max_payment_amount`, and 10 USDC if there is none.
pub configure-cap :
    (settings : List Setting)
    → (configure settings).max_payment_amount
      ≡ some (unwrap_or (last_cap settings) default_max_payment_amount_atomic)
unfolding configure last_cap
configure-cap settings = ground (arith, foldl-set-cap new_builder settings)

trimmed : Option String → Option String
trimmed none = none
trimmed (some url) = some (trim_slashes url)

foldl-set-gateway :
    (b : ClientBuilder) (u : Option String) (ss : List Setting)
    → b.gateway_url ≡ trimmed u
    → (foldl set b ss).gateway_url ≡ trimmed (foldl url_of u ss)
foldl-set-gateway b u [] h = h
foldl-set-gateway b u (s ∷ ss) h = foldl-set-gateway (set b s) (url_of u s) ss (url_step b s h)
  where
    url_step :
        (b : ClientBuilder) (s : Setting)
        → b.gateway_url ≡ trimmed u
        → (set b s).gateway_url ≡ trimmed (url_of u s)
    url_step b s h = unfold set trimmed in ground arith

trimmed-unwrap_or :
    (o : Option String)
    → unwrap_or (trimmed o) default_config.gateway_url
      ≡ trim_slashes (unwrap_or o default_config.gateway_url)
unfolding trimmed trim_slashes
trimmed-unwrap_or none = refl
trimmed-unwrap_or (some url) = refl

-- The gateway of a configuration is that of the last call of `gateway_url`, or the local default,
-- with every slash at its end removed.
configure-trim_slashes :
    (settings : List Setting)
    → (configure settings).gateway_url
      ≡ trim_slashes (unwrap_or (last_gateway settings) default_config.gateway_url)
unfolding configure last_gateway
configure-trim_slashes settings = ground (
  arith,
  foldl-set-gateway new_builder none settings (unfold trimmed in refl),
  trimmed-unwrap_or (foldl url_of none settings),
)

last_char-trim_slashes :
    (url : String) (c : Char) → last_char (trim_slashes url) ≡ some c → code c ≢ 47
unfolding trim_slashes
last_char-trim_slashes url c h =
    ground (arith, last_char-trim_end_matches (λ d. code d == 47) url c)

-- The gateway of a configuration is that of the last call of `gateway_url`, or the local default,
-- with every slash at its end removed; so it does not end with a slash.
pub configure-gateway :
    (settings : List Setting)
    → ((configure settings).gateway_url
        ≡ trim_slashes (unwrap_or (last_gateway settings) default_config.gateway_url))
      × ((c : Char) → last_char (configure settings).gateway_url ≡ some c → code c ≢ 47)
configure-gateway settings = (
  configure-trim_slashes settings,
  λ c h. last_char-trim_slashes _ c (rw configure-trim_slashes at h),
)
