-- ===== src/Signer.antt =====
-- crates/solvela-client/src/signer.rs, the part with effects: the blockhash is fetched over HTTP and
-- the wallet's key signs.
pub mod Worlds
pub mod Total
use solvela_client.Base.{none, some, ℕ, String, ◌∷◌, []}
use solvela_client.Base.Outcome.{Outcome, done, panic, try, map_fail}
use solvela_client.Base.Exec.{Exec, pure, lift, map_fail_exec, ◌>>=◌}
use solvela_client.Protocol.{Protocol}
use solvela_client.Error.{SignerError, WalletError}
use solvela_client.Wallet.{Bytes, Crypto, Wallet, keypair, pubkey}
use solvela_client.Net.{HttpRequest, Transfer, World, Servers, rpc, send}
use solvela_client.Payment.{Solana, read_blockhash, build_transfer, build_error, encode_transaction}

abbrev pub blockhash_request : String → HttpRequest
blockhash_request rpc_url = record {
  method = "POST";
  url = rpc_url;
  headers = [];
  payload = rpc "getLatestBlockhash" [];
}

unfoldable pub get_latest_blockhash : Solana → Servers → String → Exec World SignerError Bytes
get_latest_blockhash sol net rpc_url = do
  resp ← send (λ e. SignerError.rpc_error e.message) net (blockhash_request rpc_url)
  lift (read_blockhash sol resp)

-- `Transaction::new` with the wallet's key. The log of signatures grows by the transfer.
unfoldable pub sign_transaction :
    Solana → Bytes → Wallet → Bytes → Bytes → Transfer → Exec World SignerError Bytes
sign_transaction sol ix wallet signing_kp blockhash transfer w =
    elim (sol.new_transaction ix (pubkey wallet) signing_kp blockhash) [
      | none ↦ (panic, w)
      | some tx ↦ (done tx, record w { signed = transfer ∷ w.signed })
    ]

unfoldable pub sign_exact_payment :
    Protocol
    → Crypto
    → Solana
    → Servers
    → Wallet
    → String
    → String
    → ℕ
    → Exec World SignerError String
sign_exact_payment protocol crypto sol net wallet rpc_url recipient amount_atomic = do
  transfer ← lift (build_transfer protocol sol wallet recipient amount_atomic)
  ix ← lift (try (build_error "instruction build: ") (sol.transfer_checked transfer))
  blockhash ← get_latest_blockhash sol net rpc_url
  signing_kp ← lift (keypair crypto wallet)
  tx ← sign_transaction sol ix wallet signing_kp blockhash transfer
  lift (encode_transaction sol tx)
