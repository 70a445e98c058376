-- ===== src/Handshake/Budget.antt =====
-- The money of one chat in crates/solvela-client/src/client.rs: how much the transfers that the key
-- signs add up to, with a payment cap in the configuration.
use solvela_client.Base.{ℕ, ◌+◌, ◌≤◌, String, List, [], ◌∷◌, some, ◌≡◌, inl, inr, arith, nat_eq}
use solvela_client.Base.Outcome.{Outcome, done}
use solvela_client.Base.Exec.{bind-post}
use solvela_client.Protocol.{ChatRequest, ChatResponse, PaymentRequired}
use solvela_client.Error.{ClientError}
use solvela_client.Config.{ClientConfig}
use solvela_client.Wallet.{Wallet}
use solvela_client.Net.{Transfer, World, send}
use solvela_client.Payment.{build_transfer, associated_token_address}
use solvela_client.Signer.Worlds.{sign_exact_payment-signed, sign_exact_payment-done}
use solvela_client.Platform.{Platform}
use solvela_client.Handshake.{
  read_paid, resend, sign_payment_for_402_with_amount, pay_and_resend_with_amount, check_amount,
}
use solvela_client.Handshake.Frames.{sign_exact, sign-world, sign-done}

abbrev pub total_of : List Transfer → ℕ
total_of [] = 0
total_of (t ∷ ts) = t.amount + total_of ts

-- What all signed transfers add up to.
abbrev pub spent : World → ℕ
spent w = total_of w.signed

build_transfer-amount :
    (p : Platform) (wallet : Wallet) (recipient : String) (amount : ℕ) (t : Transfer)
    → build_transfer p.protocol p.solana wallet recipient amount ≡ done t
    → t.amount ≡ amount
unfolding build_transfer associated_token_address
build_transfer-amount p wallet recipient amount t h = ground arith

module _ (p : Platform) (wallet : Wallet) (config : ClientConfig) (max : ℕ)
    (capped : config.max_payment_amount ≡ some max) where
  -- A step that started with `s` spent has spent no more than the cap; and if it returns, exactly
  -- the amount that it returns.
  abbrev pub Charged {ℓ} : {A : Type ℓ} → ℕ → Outcome ClientError (A × ℕ) → World → Type ℓ
  Charged {A = A} s o w =
      (spent w ≤ s + max) × ((r : A) (a : ℕ) → o ≡ done (r, a) → (spent w ≡ s + a) × (a ≤ max))

  sign_exact-spent :
      (recipient : String) (amount : ℕ) (w : World)
      → spent (sign_exact p wallet config recipient amount w).1 ≤ spent w + amount
  sign_exact-spent recipient amount w =
      elim (sign_exact_payment-signed p.protocol p.crypto p.solana p.net wallet config.rpc_url
        recipient amount w) [
          | inl same ↦ rw same (omega arith)
          | inr (t, built, grown) ↦
              rw grown (omega (arith, build_transfer-amount p wallet recipient amount t built))
        ]

  amount-within :
      (amount : ℕ) → check_amount config.max_payment_amount amount ≡ done tt → amount ≤ max
  unfolding check_amount
  amount-within amount h = ground arith

  pub sign-Charged :
      (pr : PaymentRequired) (w : World)
      → Charged
          (spent w)
          (sign_payment_for_402_with_amount p wallet config pr w).0
          (sign_payment_for_402_with_amount p wallet config pr w).1
  sign-Charged pr w = (
    elim (sign-world p wallet config pr w) [
      | inl same ↦ rw same (omega arith)
      | inr (accept, amount, checked, e) ↦ rw e (
          omega
            (arith, sign_exact-spent accept.pay_to amount w, amount-within amount checked.within))
    ],
    λ header amount h.
        let s = sign-done p wallet config pr w header amount h in
        let (t, built, grown, transaction) =
          sign_exact_payment-done p.protocol p.crypto p.solana p.net wallet config.rpc_url
            s.accept.pay_to amount w s.text s.signed in
        (
          rw (s.world, grown)
              (omega (arith, build_transfer-amount p wallet s.accept.pay_to amount t built)),
          amount-within amount s.within,
        ),
  )

  resend-spent :
      (url header : String) (req : ChatRequest) (a : ℕ) (w : World)
      → (spent (resend p wallet config url req (header, a) w).1 ≡ spent w)
        × ((r : ChatResponse) (b : ℕ)
            → (resend p wallet config url req (header, a) w).0 ≡ done (r, b)
            → b ≡ a)
  unfolding resend send read_paid
  resend-spent url header req a w = (ground arith, λ r b h. ground arith)

  pub pay-Charged :
      (url : String) (req : ChatRequest) (pr : PaymentRequired) (w : World)
      → Charged
          (spent w)
          (pay_and_resend_with_amount p wallet config url req pr w).0
          (pay_and_resend_with_amount p wallet config url req pr w).1
  unfolding pay_and_resend_with_amount
  pay-Charged url req pr w =
      let sign = sign_payment_for_402_with_amount p wallet config pr in
      let (bound, exact) = sign-Charged pr w in
      bind-post (Charged (spent w)) sign (resend p wallet config url req) w
        (λ (header, a) e.
          let (same, kept) = resend-spent url header req a (sign w).1 in
          let (grown, within) = exact header a e in
          (
            omega (arith, same),
            λ r b h. (omega (arith, same, kept r b h), omega (arith, kept r b h)),
          ))
        (λ x _. (bound, λ r a h. cc)) (λ _. (bound, λ r a h. cc))
