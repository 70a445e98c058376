-- ===== src/Proxy/Startup/Serving.antt =====
-- What a proxy that crates/solvela-client-proxy/src/main.rs has started may pay.
use solvela_client.Base.{
  ℕ, suc, ◌+◌, ◌*◌, ◌≤◌, String, Option, none, some, List, [], ◌∷◌, length, ◌≡◌, refl, arith, ap,
  ◌∙◌, sym,
}
use solvela_client.Base.Outcome.{◌>>=◌, Outcome, done, fail, panic, map_fail, done-injective}
use solvela_client.Config.{default_max_payment_amount_atomic, trim_slashes}
use solvela_client.KeyFile.{Files, Os, load_wallet}
use solvela_client.Wallet.{Wallet}
use solvela_client.Net.{World}
use solvela_client.Platform.{Platform}
use solvela_client.Floats.{Floats}
use solvela_client.Cache.{LruCache}
use solvela_client.Client.{new}
use solvela_client.Handshake.Safety.{IsSafe}
use solvela_client.Handshake.Budget.{spent}
use solvela_client.Proxy.{CallerRequest, ProxyState, proxy_handler}
use solvela_client.Proxy.Safety.{proxy_handler-IsSafe}
use solvela_client.Proxy.Startup.{
  ProxyCli, payment_cap, proxy_config, start_proxy, serve, no_wallet_lines,
}

module _ (p : Platform) (state : ProxyState) where
  serve-IsSafe :
      (callers : List CallerRequest) (w : World) (max : ℕ)
      → state.config.max_payment_amount ≡ some max
      → IsSafe p state.wallet state.config w
      → IsSafe p state.wallet state.config (serve p state callers w)
        × (spent (serve p state callers w) ≤ spent w + length callers * max)
  unfolding serve
  serve-IsSafe [] w max capped safe = (safe, omega arith)
  serve-IsSafe (caller ∷ callers) w max capped safe =
      let (next, limited) = proxy_handler-IsSafe p state caller w safe in
      let (later, total) =
        serve-IsSafe callers (proxy_handler p state caller w).1 max capped next in
      (later, sum (length callers) max (spent w) _ _ (limited max capped) total)
    where
      sum : (n max a b c : ℕ) → b ≤ a + max → c ≤ b + n * max → c ≤ a + suc n * max
      sum n max a b c h k = omega arith

-- The cap in atomic units: what is given in USDC, rounded, or the default.
abbrev pub cap : (F : Floats) → Option F.F64 → ℕ
cap F none = default_max_payment_amount_atomic
cap F (some max_usdc) = F.to_u64 (F.round (F.mul max_usdc F.million))

payment_cap-some : (F : Floats) (given : Option F.F64) → payment_cap F given ≡ some (cap F given)
payment_cap-some F none = refl
payment_cap-some F (some max_usdc) = refl

module _ (F : Floats) (L : LruCache) (p : Platform) (os : Os) (http_built : Option String)
    (from_bytes : String → Option String) (debug : ℕ → String) (files : Files) where
  -- What the state of a started proxy holds.
  start_proxy-done :
      (cli : ProxyCli F) (state : ProxyState)
      → start_proxy F L p os http_built from_bytes debug files cli ≡ done state
      → (load_wallet p.crypto os files cli.wallet ≡ done state.wallet)
        × (state.config ≡ proxy_config F cli)
  unfolding start_proxy new
  start_proxy-done cli state h = go (load_wallet p.crypto os files cli.wallet) http_built h
    where
      made : Wallet → ProxyState
      made wallet = record {
        wallet = wallet;
        config = proxy_config F cli;
        gateway_url = trim_slashes cli.gateway.gateway;
        from_bytes = from_bytes;
        debug = debug;
      }

      go :
          (o : Outcome String Wallet) (built : Option String)
          → map_fail (no_wallet_lines F cli) o >>= (λ wallet.
            map_fail (λ e. []) (new L built wallet (proxy_config F cli)) >>= (λ client.
              done (record {
                wallet = client.wallet;
                config = client.config;
                gateway_url = trim_slashes cli.gateway.gateway;
                from_bytes = from_bytes;
                debug = debug;
              })))
            ≡ done state
          → (o ≡ done state.wallet) × (state.config ≡ proxy_config F cli)
      go (done wallet) none e =
          let same : made wallet ≡ state = done-injective (made wallet) state e in
          (ap (λ s. done s.wallet) same, sym (ap (λ s. s.config) same))
      go (done wallet) (some x) e = absurd (cc e)
      go (fail x) built e = absurd (cc e)
      go panic built e = absurd (cc e)

  -- If a proxy is started from its command line, and all that was signed and sent before is allowed by
  -- the command line's configuration: it uses the wallet that was loaded, and whatever it serves and
  -- whatever the servers answer, it signs only transfers and sends only payments that the
  -- configuration allows, of at most the cap for each request that it has served. The cap is
  -- `--max-payment` in atomic units, rounded, or the default where that is not given.
  pub start_proxy-IsSafe :
      (cli : ProxyCli F) (state : ProxyState) (callers : List CallerRequest) (w : World)
      → start_proxy F L p os http_built from_bytes debug files cli ≡ done state
      → IsSafe p state.wallet (proxy_config F cli) w
      → (load_wallet p.crypto os files cli.wallet ≡ done state.wallet)
        × IsSafe p state.wallet (proxy_config F cli) (serve p state callers w)
        × (spent (serve p state callers w) ≤ spent w + length callers * cap F cli.max_payment)
  unfolding proxy_config
  start_proxy-IsSafe cli state callers w started safe =
      let (loaded, same) = start_proxy-done cli state started in
      let capped = ap (λ c. c.max_payment_amount) same ∙ payment_cap-some F cli.max_payment in
      let (kept, total) =
        serve-IsSafe p state callers w (cap F cli.max_payment) capped (rw same safe) in
      (loaded, rw⁻¹ same kept, total)
