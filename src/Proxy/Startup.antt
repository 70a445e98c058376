-- ===== src/Proxy/Startup.antt =====
-- crates/solvela-client-proxy/src/main.rs: how the proxy is started, and the requests that it then
-- serves. The handlers run one after the other here; binding the port, logging and `--verbose` are
-- left out.
pub mod Serving
use mathlib.Core.List.{foldl}
use solvela_client.Base.{String, ◌<>◌, Option, none, some, List, [], ◌∷◌, or_option, ℕ}
use solvela_client.Base.Outcome.{Outcome, done, fail, panic, ◌>>=◌, map_fail}
use solvela_client.Config.{ClientConfig, default_config, trim_slashes}
use solvela_client.KeyFile.{WalletArgs, Files, Os, load_wallet}
use solvela_client.Net.{World}
use solvela_client.Platform.{Platform}
use solvela_client.Floats.{Floats}
use solvela_client.Cache.{LruCache}
use solvela_client.Client.{new}
use solvela_client.Cli.{GatewayArgs, RpcArgs}
use solvela_client.Proxy.{CallerRequest, ProxyState, proxy_handler}

module _ (F : Floats) where
  pub record ProxyCli : Type 0 where
    pub wallet : WalletArgs
    pub gateway : GatewayArgs
    pub rpc : RpcArgs
    pub max_payment : Option F.F64
    pub expected_recipient : Option String

  -- `(max_usdc * 1_000_000.0).round() as u64`, if a maximum is given.
  abbrev pub payment_cap : Option F.F64 → Option ℕ
  payment_cap none = default_config.max_payment_amount
  payment_cap (some max_usdc) = some (F.to_u64 (F.round (F.mul max_usdc F.million)))

  unfoldable pub proxy_config : ProxyCli → ClientConfig
  unfolding trim_slashes
  proxy_config cli = record default_config {
    gateway_url = trim_slashes cli.gateway.gateway;
    rpc_url = cli.rpc.rpc_url;
    max_payment_amount = payment_cap cli.max_payment;
    expected_recipient = or_option cli.expected_recipient default_config.expected_recipient;
  }

  -- What is written when no wallet can be loaded.
  abbrev pub no_wallet_lines : ProxyCli → String → List String
  no_wallet_lines cli e =
      ("Error: " <> e)
      ∷ ""
      ∷ "Provide a wallet via:"
      ∷ ("  1. Set " <> (cli.wallet.wallet_env <> " env var with base58-encoded keypair"))
      ∷ ("  2. Create wallet file at " <> cli.wallet.wallet_file)
      ∷ []

  -- The state that the handlers share, or the lines that are written before the exit with status 1.
  unfoldable pub start_proxy :
      LruCache
      → Platform
      → Os
      → Option String
      → (String → Option String)
      → (ℕ → String)
      → Files
      → ProxyCli
      → Outcome (List String) ProxyState
  unfolding load_wallet new proxy_config
  start_proxy L p os http_built from_bytes debug files cli = do
    wallet ← map_fail (no_wallet_lines cli) (load_wallet p.crypto os files cli.wallet)
    client ← map_fail (λ e. []) (new L http_built wallet (proxy_config cli))
    done (record {
      wallet = client.wallet;
      config = client.config;
      gateway_url = trim_slashes cli.gateway.gateway;
      from_bytes = from_bytes;
      debug = debug;
    })

-- The world after the requests of some callers, in their order.
unfoldable pub serve : Platform → ProxyState → List CallerRequest → World → World
unfolding proxy_handler
serve p state callers w = foldl (λ v caller. (proxy_handler p state caller v).1) w callers
