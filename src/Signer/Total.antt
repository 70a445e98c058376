-- ===== src/Signer/Total.antt =====
-- The signer of crates/solvela-client/src/signer.rs does not panic: its calls of `expect` succeed.
use solvela_client.Base.{
  length, drop, some, Bool, true, false, if◌then◌else◌, ℕ, String, ◌≡◌, ◌≢◌, arith, ◌∷◌,
}
use solvela_client.Base.Outcome.{Outcome, Result, ok, err, done, panic, try, try-done}
use solvela_client.Base.Exec.{Exec, lift, ◌>>=◌, bind-post}
use solvela_client.Error.{NetError, SignerError}
use solvela_client.Protocol.{Protocol, PaymentPayload}
use solvela_client.Wallet.{Bytes, Crypto, Wallet, keypair, pubkey}
use solvela_client.Wallet.Laws.{IsValid, keypair_valid}
use solvela_client.Net.{HttpRequest, HttpResponse, Servers, Transfer, send, exchange}
use solvela_client.Payment.{
  Solana, associated_token_address, associated_token_program_id, build_transfer, build_error,
  read_blockhash, encode_transaction, encode_payment_header,
}
use solvela_client.Signer.{
  blockhash_request, get_latest_blockhash, sign_transaction, sign_exact_payment,
}

-- An action that does not panic.
abbrev pub NoPanic {ℓ κ μ} : {S : Type ℓ} {E : Type κ} {A : Type μ} → Exec S E A → Type (ℓ ⊔ κ ⊔ μ)
NoPanic m = (s : _) → (m s).0 ≢ panic

module _ {ℓ κ μ ν} {S : Type ℓ} {E : Type κ} {A : Type μ} {B : Type ν} where
  pub NoPanic-bind :
      (m : Exec S E A) (f : A → Exec S E B)
      → NoPanic m
      → ((a : A) → NoPanic (f a))
      → NoPanic (m >>= f)
  NoPanic-bind m f h k s =
      bind-post (λ o _. o ≢ panic) m f s (λ a _. k a (m s).1) (λ e _ p. cc p) (λ e. absurd (h s e))

  -- The same, where what follows may use what the first step has found.
  pub NoPanic-lift :
      (o : Outcome E A) (f : A → Exec S E B)
      → o ≢ panic
      → ((a : A) → o ≡ done a → NoPanic (f a))
      → NoPanic (lift o >>= f)
  NoPanic-lift o f h k s =
      bind-post (λ r _. r ≢ panic) (lift o) f s (λ a e. k a e s) (λ e _ p. cc p) (λ e. absurd (h e))

module _ {ℓ κ μ} {S : Type ℓ} {E : Type κ} {A : Type μ} where
  pub NoPanic-if :
      (b : Bool) (m n : Exec S E A) → NoPanic m → NoPanic n → NoPanic (if b then m else n)
  NoPanic-if true m n h k = h
  NoPanic-if false m n h k = k

module _ {ℓ κ μ} {E : Type ℓ} {F : Type κ} {A : Type μ} where
  pub try_ne_panic : (f : E → F) (r : Result E A) → try f r ≢ panic
  try_ne_panic f (ok a) h = cc h
  try_ne_panic f (err e) h = cc h

pub send-NoPanic {ℓ} :
    {E : Type ℓ} (f : NetError → E) (net : Servers) (request : HttpRequest)
    → NoPanic (send f net request)
unfolding send exchange
send-NoPanic f net request s = try_ne_panic f (net (request ∷ s.sent)).reply

-- What the signer relies on: the address of the token program is a key, a payload can be written as
-- JSON, and the authority of a transfer, which is the only key that its instruction asks to sign, can
-- sign and pay for a transaction with it.
pub record IsTotal (sol : Solana) : Type 0 where
  pub ata_program : Bytes
  pub parses : sol.parse_pubkey associated_token_program_id ≡ ok ata_program
  pub writes : (payload : PaymentPayload) → (json : String) × (sol.payload_json payload ≡ ok json)
  pub signs :
      (t : Transfer) (ix kp hash : Bytes)
      → sol.transfer_checked t ≡ ok ix
      → length kp ≡ 64
      → t.authority ≡ drop 32 kp
      → (tx : Bytes) × (sol.new_transaction ix (drop 32 kp) kp hash ≡ some tx)

module _ (sol : Solana) (total : IsTotal sol) where
  pub associated_token_address_ne_panic {ℓ} :
      {E : Type ℓ} (owner mint : Bytes) → associated_token_address {E = E} sol owner mint ≢ panic
  unfolding associated_token_address
  associated_token_address_ne_panic owner mint h = cc (rw total.parses at h)

  pub encode_payment_header_ne_panic {ℓ} :
      {E : Type ℓ} (payload : PaymentPayload) → encode_payment_header {E = E} sol payload ≢ panic
  unfolding encode_payment_header
  encode_payment_header_ne_panic payload h =
      let (json, written) = total.writes payload in cc (rw written at h)

  build_transfer_ne_panic :
      (protocol : Protocol) (wallet : Wallet) (recipient : String) (amount : ℕ)
      → build_transfer protocol sol wallet recipient amount ≢ panic
  unfolding build_transfer associated_token_address
  build_transfer_ne_panic protocol wallet recipient amount h = ground (arith, total.parses)

  build_transfer-authority :
      (protocol : Protocol) (wallet : Wallet) (recipient : String) (amount : ℕ) (t : Transfer)
      → build_transfer protocol sol wallet recipient amount ≡ done t
      → t.authority ≡ pubkey wallet
  unfolding build_transfer associated_token_address
  build_transfer-authority protocol wallet recipient amount t h = ground arith

  sign_transaction-NoPanic :
      (wallet : Wallet) (t : Transfer) (ix hash : Bytes)
      → sol.transfer_checked t ≡ ok ix
      → length wallet.keypair_bytes ≡ 64
      → t.authority ≡ pubkey wallet
      → NoPanic (sign_transaction sol ix wallet wallet.keypair_bytes hash t)
  unfolding sign_transaction pubkey
  sign_transaction-NoPanic wallet t ix hash instruction size authority s h =
      let (tx, made) = total.signs t ix wallet.keypair_bytes hash instruction size authority in
      cc (rw (made, sign_transaction) at h)

  encode_transaction_ne_panic : (tx : Bytes) → encode_transaction sol tx ≢ panic
  unfolding encode_transaction
  encode_transaction_ne_panic tx h = ground arith

  read_blockhash_ne_panic : (resp : HttpResponse) → read_blockhash sol resp ≢ panic
  unfolding read_blockhash
  read_blockhash_ne_panic resp h = ground arith

  module _ (protocol : Protocol) (crypto : Crypto) (net : Servers) (wallet : Wallet)
      (rpc_url : String) (valid : IsValid crypto wallet) where
    pub sign_exact_payment-NoPanic :
        (recipient : String) (amount : ℕ)
        → NoPanic (sign_exact_payment protocol crypto sol net wallet rpc_url recipient amount)
    unfolding sign_exact_payment get_latest_blockhash
    sign_exact_payment-NoPanic recipient amount =
        NoPanic-lift (build_transfer protocol sol wallet recipient amount) _
          (build_transfer_ne_panic protocol wallet recipient amount)
          (λ transfer built.
            NoPanic-lift (try (build_error "instruction build: ") (sol.transfer_checked transfer)) _
              (try_ne_panic _ _)
              (λ ix made.
                NoPanic-bind (get_latest_blockhash sol net rpc_url) _
                  (NoPanic-bind (send _ net (blockhash_request rpc_url)) _ (send-NoPanic _ net _)
                    (λ resp s. read_blockhash_ne_panic resp))
                  (λ blockhash.
                    NoPanic-lift (keypair crypto wallet) _
                      (λ h. cc (rw (keypair_valid crypto wallet valid) at h))
                      (λ signing_kp rebuilt.
                        NoPanic-bind (sign_transaction sol ix wallet signing_kp blockhash transfer)
                          (λ tx. lift (encode_transaction sol tx))
                          (signed transfer ix blockhash signing_kp built made rebuilt)
                          (λ tx s. encode_transaction_ne_panic tx)))))
      where
        signed :
            (t : Transfer) (ix hash kp : Bytes)
            → build_transfer protocol sol wallet recipient amount ≡ done t
            → try (build_error "instruction build: ") (sol.transfer_checked t) ≡ done ix
            → keypair crypto {E = SignerError} wallet ≡ done kp
            → NoPanic (sign_transaction sol ix wallet kp hash t)
        signed t ix hash kp built made rebuilt =
            let same : wallet.keypair_bytes ≡ kp =
              cc (rw (keypair_valid crypto {E = SignerError} wallet valid) at rebuilt) in
            rw (← same) (
              sign_transaction-NoPanic wallet t ix hash (try-done _ (sol.transfer_checked t) made)
                valid.size (build_transfer-authority protocol wallet recipient amount t built))
