-- ===== src/Signer/Worlds.antt =====
-- What `sign_exact_payment` of crates/solvela-client/src/signer.rs does to the world: it sends one
-- request at most, and signs one transfer at most, the one that it was asked for.
use solvela_client.Base.{ℕ, String, ◌∷◌, ◌≡◌, ◌⊎◌, arith, some}
use solvela_client.Base.Outcome.{done, ok}
use solvela_client.Protocol.{Protocol}
use solvela_client.Error.{SignerError}
use solvela_client.Wallet.{Bytes, Crypto, Wallet, keypair, pubkey}
use solvela_client.Net.{Transfer, World, Servers, send}
use solvela_client.Payment.{Solana, build_transfer, encode_transaction}
use solvela_client.Signer.{
  blockhash_request, get_latest_blockhash, sign_transaction, sign_exact_payment,
}

module _ (protocol : Protocol) (crypto : Crypto) (sol : Solana) (net : Servers) (wallet : Wallet)
    (rpc_url : String) where
  -- The text is a transaction for the transfer, signed by the wallet's key.
  -- The blockhash is the one that is fetched in the world `w`.
  pub record IsTransaction (w : World) (t : Transfer) (text : String) : Type 0 where
    pub ix : Bytes
    pub signing_kp : Bytes
    pub blockhash : Bytes
    pub instruction : sol.transfer_checked t ≡ ok ix
    pub fetched : (get_latest_blockhash sol net rpc_url w).0 ≡ done blockhash
    pub key : keypair crypto {E = SignerError} wallet ≡ done signing_kp
    pub tx : Bytes
    pub made : sol.new_transaction ix (pubkey wallet) signing_kp blockhash ≡ some tx
    pub encoded : encode_transaction sol tx ≡ done text

  pub sign_exact_payment-sent :
      (recipient : String) (amount : ℕ) (w : World)
      → ((sign_exact_payment protocol crypto sol net wallet rpc_url recipient amount w).1.sent
          ≡ w.sent)
        ⊎ ((sign_exact_payment protocol crypto sol net wallet rpc_url recipient amount w).1.sent
            ≡ blockhash_request rpc_url ∷ w.sent)
  unfolding sign_exact_payment get_latest_blockhash sign_transaction send
  sign_exact_payment-sent recipient amount w = ground arith

  pub sign_exact_payment-signed :
      (recipient : String) (amount : ℕ) (w : World)
      → ((sign_exact_payment protocol crypto sol net wallet rpc_url recipient amount w).1.signed
          ≡ w.signed)
        ⊎ ((t : Transfer) × (build_transfer protocol sol wallet recipient amount ≡ done t)
            × ((sign_exact_payment protocol crypto sol net wallet rpc_url recipient amount
                  w).1.signed
                ≡ t ∷ w.signed))
  unfolding sign_exact_payment get_latest_blockhash sign_transaction send
  sign_exact_payment-signed recipient amount w = ground arith

  pub sign_exact_payment-done :
      (recipient : String) (amount : ℕ) (w : World) (text : String)
      → (sign_exact_payment protocol crypto sol net wallet rpc_url recipient amount w).0 ≡ done text
      → (t : Transfer) × (build_transfer protocol sol wallet recipient amount ≡ done t)
        × ((sign_exact_payment protocol crypto sol net wallet rpc_url recipient amount w).1.signed
            ≡ t ∷ w.signed)
        × IsTransaction w t text
  unfolding sign_exact_payment get_latest_blockhash sign_transaction send
  sign_exact_payment-done recipient amount w text h = ground arith
