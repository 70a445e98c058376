-- ===== src/Payment.antt =====
-- crates/solvela-client/src/signer.rs, the part with no effect: the transfer of a payment, the
-- payload and its header. The Solana crates, JSON and base64 are the parameter `Solana`; keys,
-- hashes, instructions and transactions are their bytes.
use solvela_client.Base.{ℕ, String, ◌<>◌, List, [], ◌∷◌, Option, none, some, if◌then◌else◌}
use solvela_client.Base.Outcome.{Result, ok, err, Outcome, done, fail, try, expect, ◌>>=◌}
use solvela_client.Protocol.{Protocol, Resource, PaymentAccept, PaymentPayload, direct}
use solvela_client.Error.{SignerError}
use solvela_client.Wallet.{Bytes, Wallet, pubkey}
use solvela_client.Net.{HttpResponse, Transfer, is_success}

-- The parts of a JSON-RPC answer that the program reads: the text of `error`, and
-- `result.value.blockhash` where it is a string.
pub record RpcReply : Type 0 where
  pub error : Option String
  pub blockhash : Option String

pub record Solana : Type 0 where
  pub parse_pubkey : String → Result String Bytes
  pub display_pubkey : Bytes → String
  pub find_program_address : List Bytes → Bytes → Bytes
  pub token_program : Bytes
  pub transfer_checked : Transfer → Result String Bytes
  pub parse_hash : String → Result String Bytes
  -- `Message::new` and `Transaction::new`: instruction, payer, signing keypair, blockhash. Nothing is
  -- made where the second panics, because the keypair cannot give all signatures.
  pub new_transaction : Bytes → Bytes → Bytes → Bytes → Option Bytes
  -- `bincode::serialize`
  pub serialize : Bytes → Result String Bytes
  -- base64 of bytes, and of the bytes of a text
  pub base64 : Bytes → String
  pub base64_text : String → String
  -- `serde_json::to_string`
  pub payload_json : PaymentPayload → Result String String
  -- the `Display` of a `StatusCode`
  pub display_status : ℕ → String
  -- the JSON-RPC answer in a body
  pub parse_rpc : String → Result String RpcReply

abbrev pub usdc_decimals : ℕ
usdc_decimals = 6

abbrev pub associated_token_program_id : String
associated_token_program_id = "ATokenGPvbdGVxr1b2hvZbsiqW5xWH25efTNsLJA8knL"

-- `resp.json()`: the body has to be read, then parsed.
abbrev pub parsed {ℓ} : {A : Type ℓ} → (String → Result String A) → HttpResponse → Result String A
parsed parse resp = elim resp.body [ err e ↦ err e.message | ok text ↦ parse text ]

unfoldable pub associated_token_address {ℓ} :
    {E : Type ℓ} → Solana → Bytes → Bytes → Outcome E Bytes
associated_token_address sol wallet mint = do
  ata_program ← expect (sol.parse_pubkey associated_token_program_id)
  done (sol.find_program_address (wallet ∷ sol.token_program ∷ mint ∷ []) ata_program)

-- What `get_latest_blockhash` makes of an answer.
unfoldable pub read_blockhash : Solana → HttpResponse → Outcome SignerError Bytes
read_blockhash sol resp =
    if is_success resp.status
    then elim (parsed sol.parse_rpc resp) [
      | err e ↦ fail (SignerError.rpc_error ("failed to parse RPC response: " <> e))
      | ok json ↦ elim json.error [
        | some err_obj ↦ fail (SignerError.rpc_error ("RPC error: " <> err_obj))
        | none ↦ elim json.blockhash [
          | none ↦ fail (SignerError.rpc_error "missing blockhash in RPC response")
          | some text ↦
              try (λ e. SignerError.rpc_error ("invalid blockhash: " <> e)) (sol.parse_hash text)
        ]
      ]
    ]
    else fail (SignerError.rpc_error ("RPC returned HTTP " <> sol.display_status resp.status))

abbrev pub build_error : String → String → SignerError
build_error what e = SignerError.transaction_build (what <> e)

-- The transfer of an exact payment: from the wallet's token account to the recipient's.
unfoldable pub build_transfer :
    Protocol → Solana → Wallet → String → ℕ → Outcome SignerError Transfer
build_transfer protocol sol wallet recipient amount_atomic = do
  mint ← try (build_error "invalid USDC mint: ") (sol.parse_pubkey protocol.usdc_mint)
  recipient_pubkey ← try (build_error "invalid recipient: ") (sol.parse_pubkey recipient)
  source_ata ← associated_token_address sol (pubkey wallet) mint
  dest_ata ← associated_token_address sol recipient_pubkey mint
  done (record {
    source = source_ata;
    mint = mint;
    destination = dest_ata;
    authority = pubkey wallet;
    amount = amount_atomic;
    decimals = usdc_decimals;
  })

-- Serialisation of the signed transaction, as base64.
unfoldable pub encode_transaction : Solana → Bytes → Outcome SignerError String
encode_transaction sol tx = do
  tx_bytes ← try (build_error "serialize: ") (sol.serialize tx)
  done (sol.base64 tx_bytes)

abbrev pub build_payment_payload : Protocol → Resource → PaymentAccept → String → PaymentPayload
build_payment_payload protocol resource accept signed_tx_b64 = record {
  x402_version = protocol.x402_version;
  resource = resource;
  accepted = accept;
  payload = direct signed_tx_b64;
}

unfoldable pub encode_payment_header {ℓ} : {E : Type ℓ} → Solana → PaymentPayload → Outcome E String
encode_payment_header sol payload = do
  json ← expect (sol.payload_json payload)
  done (sol.base64_text json)
