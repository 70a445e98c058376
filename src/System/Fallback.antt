-- ===== src/System/Fallback.antt =====
-- How the monitor of crates/solvela-client/src/balance.rs decides which model the next chat of
-- crates/solvela-client/src/client.rs asks for.
use solvela_client.Base.{
  ℕ, String, true, some, ◌∷◌, ◌≡◌, refl, ◌∙◌, ap, unwrap_or, or_option, nat_eq, false,
}
use solvela_client.Base.Outcome.{ok}
use solvela_client.Protocol.{ChatRequest}
use solvela_client.Wallet.{Bytes}
use solvela_client.Cache.{LruCache}
use solvela_client.Net.{HttpResponse, is_success, exchange}
use solvela_client.Payment.{parsed}
use solvela_client.Platform.{Platform}
use solvela_client.Floats.{Floats, IsLawful, BalanceReply}
use solvela_client.Balance.{
  BalanceMonitor, balance_request, read_balance, fetch_balance, observe, poll,
}
use solvela_client.Client.{prepare}
use solvela_client.Client.Model.{free_model, session_model, prepare-request}
use solvela_client.System.{System, ticked}

module _ (F : Floats) (L : LruCache) (p : Platform) (m : BalanceMonitor F) (ata : Bytes) where
  -- After a round of the monitor that reads the balance `x`, the next chat asks for the free model if
  -- one is configured and `x` is stored as zero atomic units; else for the model of its session, if it
  -- has one; else for the caller's.
  pub ticked-prepare :
      (s : System F L) (wait now : ℕ) (req : ChatRequest) (x : F.F64)
      → read_balance F
          (p.net (balance_request m.rpc_url (p.solana.display_pubkey ata) ∷ s.world.sent)).reply
        ≡ ok x
      → (prepare L p (ticked F L p m ata wait s).client req now).request ≡ record req {
        stream = false;
        model =
            unwrap_or
              (or_option
                (free_model s.client.config (F.to_u64 (F.mul x F.million)))
                (session_model p.sip s.client.session_store req now))
              req.model;
      }
  unfolding ticked poll fetch_balance exchange observe
  ticked-prepare s wait now req x read =
      prepare-request L p (ticked F L p m ata wait s).client req now ∙ rw read refl

  -- If the floating-point numbers obey their laws, a free model is configured, and the RPC server
  -- answers a round of the monitor that there is no such account, then the next chat asks for the
  -- free model.
  pub ticked-free :
      (s : System F L) (wait now : ℕ) (req : ChatRequest) (model : String) (resp : HttpResponse)
      (json : BalanceReply F.F64)
      → IsLawful F
      → s.client.config.free_fallback_model ≡ some model
      → (p.net (balance_request m.rpc_url (p.solana.display_pubkey ata) ∷ s.world.sent)).reply
        ≡ ok resp
      → is_success resp.status ≡ true
      → parsed F.balance_reply resp ≡ ok json
      → json.has_error ≡ true
      → (prepare L p (ticked F L p m ata wait s).client req now).request.model ≡ model
  unfolding read_balance nat_eq
  ticked-free s wait now req model resp json law configured answered success read missing =
      let zero_read : read_balance F
            (p.net (balance_request m.rpc_url (p.solana.display_pubkey ata) ∷ s.world.sent)).reply
          ≡ ok F.zero =
        rw (answered, read_balance, success, read, missing) refl in
      ap (λ r. r.model) (ticked-prepare s wait now req F.zero zero_read)
      ∙ rw (law.zero_mul F.million, configured) refl
