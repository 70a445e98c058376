-- ===== src/Wallet.antt =====
-- crates/solvela-client/src/wallet.rs: the wallet. The crates for Ed25519 keys, mnemonics and base58
-- are the parameter `Crypto`; a key, a seed and a mnemonic are their bytes, and the randomness of a
-- new mnemonic is an argument.
pub mod Laws
use solvela_client.Base.{
  ℕ, String, ◌<>◌, List, ◌++◌, Option, none, some, length, take, drop, leb, ◌==◌, nat_eq,
  if◌then◌else◌,
}
use solvela_client.Base.Outcome.{Result, Outcome, done, fail, panic, try, expect, ok_or, ◌>>=◌}
use solvela_client.Error.{WalletError}

abbrev pub Bytes : Type 0
Bytes = List ℕ

pub record Crypto : Type 0 where
  -- `Keypair::try_from`, on secret and public key in one
  pub keypair_try_from : Bytes → Result String Bytes
  -- the public key of a 32-byte Ed25519 secret
  pub verifying_key : Bytes → Bytes
  -- `Mnemonic::generate(12)`, with the entropy that it draws
  pub generate : Bytes → Result String Bytes
  -- `Mnemonic::from_str`, `to_string` and `to_seed("")`
  pub parse_mnemonic : String → Result String Bytes
  pub display_mnemonic : Bytes → String
  pub to_seed : Bytes → Bytes
  pub b58_decode : String → Result String Bytes
  pub b58_encode : Bytes → String
  -- `Pubkey::to_string`
  pub display_pubkey : Bytes → String

pub record Wallet : Type 0 where
  pub keypair_bytes : Bytes

abbrev pub from_validated_bytes : Bytes → Wallet
from_validated_bytes bytes = record { keypair_bytes = bytes }

-- The public key is the second half of the stored keypair.
unfoldable pub pubkey : Wallet → Bytes
pubkey w = drop 32 w.keypair_bytes

abbrev pub to_keypair_bytes : Wallet → Bytes
to_keypair_bytes w = w.keypair_bytes

module _ (k : Crypto) where
  unfoldable pub keypair {ℓ} : {E : Type ℓ} → Wallet → Outcome E Bytes
  keypair w = expect (k.keypair_try_from w.keypair_bytes)

  -- The slice of 32 bytes panics on a shorter seed.
  unfoldable pub keypair_bytes_from_seed : Bytes → Outcome WalletError Bytes
  keypair_bytes_from_seed seed =
      if leb 32 (length seed) then done (take 32 seed ++ k.verifying_key (take 32 seed)) else panic

  unfoldable pub create : Bytes → Outcome WalletError (Wallet × String)
  unfolding keypair_bytes_from_seed
  create entropy = do
    mnemonic ← expect (k.generate entropy)
    let phrase = k.display_mnemonic mnemonic
    kp_bytes ← keypair_bytes_from_seed (k.to_seed mnemonic)
    valid ← expect (k.keypair_try_from kp_bytes)
    done (from_validated_bytes kp_bytes, phrase)

  unfoldable pub from_mnemonic : String → Outcome WalletError Wallet
  unfolding keypair_bytes_from_seed
  from_mnemonic phrase = do
    mnemonic ← try WalletError.invalid_mnemonic (k.parse_mnemonic phrase)
    kp_bytes ← keypair_bytes_from_seed (k.to_seed mnemonic)
    valid ← try WalletError.invalid_mnemonic (k.keypair_try_from kp_bytes)
    done (from_validated_bytes kp_bytes)

  unfoldable pub from_keypair_bytes : Bytes → Outcome WalletError Wallet
  unfolding nat_eq
  from_keypair_bytes bytes = do
    valid ← try WalletError.invalid_keypair (k.keypair_try_from bytes)
    if length bytes == 64
        then done (from_validated_bytes bytes)
        else fail (WalletError.invalid_keypair "expected exactly 64 bytes")

  unfoldable pub from_keypair_b58 : String → Outcome WalletError Wallet
  unfolding from_keypair_bytes
  from_keypair_b58 b58 = do
    bytes ← try WalletError.invalid_keypair (k.b58_decode b58)
    from_keypair_bytes bytes

  -- `env` is the process environment (`std::env::var`).
  unfoldable pub from_env : (String → Option String) → String → Outcome WalletError Wallet
  unfolding from_keypair_b58
  from_env env var = do val ← ok_or (WalletError.env_not_set var) (env var); from_keypair_b58 val

  unfoldable pub address : Wallet → String
  unfolding pubkey
  address w = k.display_pubkey (pubkey w)

  unfoldable pub to_keypair_b58 : Wallet → String
  to_keypair_b58 w = k.b58_encode w.keypair_bytes

  -- `Debug`
  unfoldable pub debug : Wallet → String
  unfolding address
  debug w = "Wallet(" <> (address w <> ")")
