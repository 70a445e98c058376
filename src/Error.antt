-- ===== src/Error.antt =====
-- crates/solvela-client/src/error.rs: the error types and the texts that `thiserror` derives.
use solvela_client.Base.{ℕ, String, ◌<>◌, Bool}
use solvela_client.Text.Digits.{to_decimal}

pub data WalletError : Type 0 where
  invalid_mnemonic : String → WalletError
  invalid_keypair : String → WalletError
  env_not_set : String → WalletError
  rpc_error : String → WalletError

pub data SignerError : Type 0 where
  rpc_error : String → SignerError
  no_associated_token_account : String → SignerError
  transaction_build : String → SignerError

-- An error of the HTTP client: its text, and whether it is a timeout.
pub record NetError : Type 0 where
  pub message : String
  pub is_timeout : Bool

-- `timeout` holds a duration in nanoseconds.
pub data ClientError : Type 0 where
  wallet : WalletError → ClientError
  insufficient_balance : ℕ → ℕ → ClientError
  signing : SignerError → ClientError
  gateway : ℕ → String → ClientError
  payment_rejected : String → ClientError
  no_compatible_scheme : ClientError
  model_not_found : String → ClientError
  timeout : ℕ → ClientError
  network : NetError → ClientError
  stream_error : String → ClientError
  parse_error : String → ClientError
  recipient_mismatch : String → String → ClientError
  amount_exceeds_max : ℕ → ℕ → ClientError
  budget_exceeded : ℕ → ℕ → ClientError
  config : String → ClientError
  balance_error : String → ClientError

unfoldable pub display_wallet_error : WalletError → String
display_wallet_error (WalletError.invalid_mnemonic m) = "invalid mnemonic: " <> m
display_wallet_error (WalletError.invalid_keypair m) = "invalid keypair: " <> m
display_wallet_error (WalletError.env_not_set m) = "environment variable not set: " <> m
display_wallet_error (WalletError.rpc_error m) = "RPC error: " <> m

unfoldable pub display_signer_error : SignerError → String
display_signer_error (SignerError.rpc_error m) = "RPC error: " <> m
display_signer_error (SignerError.no_associated_token_account m) =
    "no associated token account for " <> m
display_signer_error (SignerError.transaction_build m) = "transaction build error: " <> m

-- `debug` prints a duration (`{:?}`).
unfoldable pub display_client_error : (ℕ → String) → ClientError → String
unfolding display_wallet_error display_signer_error to_decimal
display_client_error debug (ClientError.wallet e) = "wallet error: " <> display_wallet_error e
display_client_error debug (ClientError.insufficient_balance have need) =
    "insufficient USDC balance: have "
    <> (to_decimal have <> (" atomic, need " <> (to_decimal need <> " atomic")))
display_client_error debug (ClientError.signing e) =
    "payment signing failed: " <> display_signer_error e
display_client_error debug (ClientError.gateway status message) =
    "gateway error (" <> (to_decimal status <> ("): " <> message))
display_client_error debug (ClientError.payment_rejected m) = "payment rejected by gateway: " <> m
display_client_error debug ClientError.no_compatible_scheme =
    "no compatible payment scheme in 402 response"
display_client_error debug (ClientError.model_not_found m) = "model not found: " <> m
display_client_error debug (ClientError.timeout d) = "request timeout after " <> debug d
display_client_error debug (ClientError.network e) = "network error: " <> e.message
display_client_error debug (ClientError.stream_error m) = "stream interrupted: " <> m
display_client_error debug (ClientError.parse_error m) = "failed to parse response: " <> m
display_client_error debug (ClientError.recipient_mismatch expected actual) =
    "payment recipient mismatch: expected " <> (expected <> (", got " <> actual))
display_client_error debug (ClientError.amount_exceeds_max amount max) =
    "payment amount " <> (to_decimal amount <> (" exceeds maximum allowed " <> to_decimal max))
display_client_error debug (ClientError.budget_exceeded spent cap_atomic) =
    "cumulative payments "
    <> (to_decimal spent
        <> (" atomic exceed budget " <> (to_decimal cap_atomic <> " atomic for this request")))
display_client_error debug (ClientError.config m) = "client configuration error: " <> m
display_client_error debug (ClientError.balance_error m) = "balance check failed: " <> m
