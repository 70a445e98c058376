-- ===== src/Handshake/Frames.antt =====
-- The steps of the handshake of crates/solvela-client/src/client.rs, taken apart: what was decided
-- when a payment is signed, and which requests leave the program.
use solvela_client.Base.{ℕ, String, [], ◌∷◌, some, ◌≡◌, ◌⊎◌, inl, inr, refl, arith}
use solvela_client.Base.Outcome.{Outcome, done}
use solvela_client.Protocol.{ChatRequest, PaymentAccept, PaymentRequired}
use solvela_client.Error.{ClientError, SignerError}
use solvela_client.Config.{ClientConfig}
use solvela_client.Wallet.{Wallet}
use solvela_client.Net.{World, send}
use solvela_client.Payment.{build_payment_payload, encode_payment_header}
use solvela_client.Signer.{sign_exact_payment}
use solvela_client.Platform.{Platform}
use solvela_client.Handshake.{
  pick_scheme, check_recipient, parse_amount, check_amount, post, payment_signature,
  sign_payment_for_402_with_amount, pay_and_resend_with_amount, resend,
}
use solvela_client.Base.Exec.{bind-post}

module _ (p : Platform) (wallet : Wallet) (config : ClientConfig) where
  abbrev pub sign_exact : String → ℕ → World → Outcome SignerError String × World
  sign_exact = sign_exact_payment p.protocol p.crypto p.solana p.net wallet config.rpc_url

  -- The offer and the amount passed all checks.
  pub record Checked (pr : PaymentRequired) (accept : PaymentAccept) (amount : ℕ) : Type 0 where
    pub picked : pick_scheme p.protocol pr.accepts ≡ some accept
    pub recipient : check_recipient config.expected_recipient accept ≡ done tt
    pub parsed : parse_amount accept ≡ done amount
    pub within : check_amount config.max_payment_amount amount ≡ done tt

  -- Nothing happens before all checks have passed; then the signer acts once.
  pub sign-world :
      (pr : PaymentRequired) (w : World)
      → ((sign_payment_for_402_with_amount p wallet config pr w).1 ≡ w)
        ⊎ ((accept : PaymentAccept) × (amount : ℕ) × Checked pr accept amount
            × ((sign_payment_for_402_with_amount p wallet config pr w).1
                ≡ (sign_exact accept.pay_to amount w).1))
  unfolding sign_payment_for_402_with_amount
  sign-world pr w = ground arith

  pub record Signing (pr : PaymentRequired) (w : World) (header : String) (amount : ℕ)
      : Type 0 where
    pub accept : PaymentAccept
    pub text : String
    pub picked : pick_scheme p.protocol pr.accepts ≡ some accept
    pub recipient : check_recipient config.expected_recipient accept ≡ done tt
    pub parsed : parse_amount accept ≡ done amount
    pub within : check_amount config.max_payment_amount amount ≡ done tt
    pub signed : (sign_exact accept.pay_to amount w).0 ≡ done text
    pub world :
        (sign_payment_for_402_with_amount p wallet config pr w).1
        ≡ (sign_exact accept.pay_to amount w).1
    pub encoded :
        encode_payment_header {E = ClientError} p.solana
          (build_payment_payload p.protocol pr.resource accept text)
        ≡ done header

  pub sign-done :
      (pr : PaymentRequired) (w : World) (header : String) (amount : ℕ)
      → (sign_payment_for_402_with_amount p wallet config pr w).0 ≡ done (header, amount)
      → Signing pr w header amount
  unfolding sign_payment_for_402_with_amount
  sign-done pr w header amount h = grind arith

  resend-world :
      (url header : String) (req : ChatRequest) (amount : ℕ) (w : World)
      → ((resend p wallet config url req (header, amount) w).1.sent
          ≡ post url ((payment_signature, header) ∷ []) req ∷ w.sent)
        × ((resend p wallet config url req (header, amount) w).1.signed ≡ w.signed)
  unfolding resend send
  resend-world url header req amount w = ground arith

  -- The paid request follows only a signed payment, and carries its header.
  abbrev pub Paid : String → ChatRequest → PaymentRequired → World → World → Type 0
  Paid url req pr w after =
      (header : String) × (amount : ℕ) × ((sign_payment_for_402_with_amount p wallet config pr w).0
        ≡ done (header, amount))
      × (after.sent
          ≡ post url ((payment_signature, header) ∷ []) req
            ∷ (sign_payment_for_402_with_amount p wallet config pr w).1.sent)
      × (after.signed ≡ (sign_payment_for_402_with_amount p wallet config pr w).1.signed)

  pub pay-world :
      (url : String) (req : ChatRequest) (pr : PaymentRequired) (w : World)
      → ((pay_and_resend_with_amount p wallet config url req pr w).1
          ≡ (sign_payment_for_402_with_amount p wallet config pr w).1)
        ⊎ Paid url req pr w (pay_and_resend_with_amount p wallet config url req pr w).1
  unfolding pay_and_resend_with_amount
  pay-world url req pr w =
      let sign = sign_payment_for_402_with_amount p wallet config pr in
      bind-post (λ _ after. (after ≡ (sign w).1) ⊎ Paid url req pr w after) sign
        (resend p wallet config url req) w
        (λ (header, amount) e.
          let (sent, kept) = resend-world url header req amount (sign w).1 in
          inr (header, amount, e, sent, kept))
        (λ _ _. inl refl) (λ _. inl refl)
