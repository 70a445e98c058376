-- ===== src/Handshake/Safety.antt =====
-- The security of the handshake of crates/solvela-client/src/client.rs: what the wallet's key signs,
-- and which payment headers leave the program, whatever the servers answer.
use solvela_client.Base.{ℕ, String, [], ◌∷◌, ◌≡◌, inl, inr, All, string_eq}
use solvela_client.Base.Outcome.{done}
use solvela_client.Protocol.{ChatRequest, PaymentAccept, PaymentRequired, Resource}
use solvela_client.Error.{ClientError}
use solvela_client.Config.{ClientConfig}
use solvela_client.Wallet.{Wallet}
use solvela_client.Net.{HttpRequest, Transfer, World}
use solvela_client.Payment.{build_transfer, build_payment_payload, encode_payment_header}
use solvela_client.Signer.Worlds.{
  IsTransaction, sign_exact_payment-sent, sign_exact_payment-signed, sign_exact_payment-done,
}
use solvela_client.Platform.{Platform}
use solvela_client.Handshake.{
  post, payment_signature, sign_payment_for_402_with_amount, pay_and_resend_with_amount,
}
use solvela_client.Handshake.Accepts.{IsAcceptable, IsAcceptable-of_checks}
use solvela_client.Handshake.Frames.{Checked, sign-world, sign-done, pay-world, sign_exact}
use solvela_client.Text.{ascii_lowercase}

module _ (p : Platform) (wallet : Wallet) (config : ClientConfig) where
  -- A transfer that the configuration allows: its offer is supported, pays the expected recipient,
  -- and asks for no more than the cap; the transfer is the one built for the offer's recipient and
  -- amount.
  pub record IsAuthorized (t : Transfer) : Type 0 where
    pub accept : PaymentAccept
    pub amount : ℕ
    pub acceptable : IsAcceptable p.protocol config accept amount
    pub built : build_transfer p.protocol p.solana wallet accept.pay_to amount ≡ done t

  -- The header encodes the payload of an authorized transfer, whose transaction the key signed.
  pub record IsPayment (header : String) : Type 0 where
    pub transfer : Transfer
    pub authorized : IsAuthorized transfer
    pub resource : Resource
    pub text : String
    pub world : World
    pub transaction :
        IsTransaction p.protocol p.crypto p.solana p.net wallet config.rpc_url world transfer text
    pub encoded :
        encode_payment_header {E = ClientError} p.solana
          (build_payment_payload p.protocol resource authorized.accept text)
        ≡ done header

  -- Every header of the request that is named as a payment's, in whatever letter case, is a payment.
  abbrev pub IsClean : HttpRequest → Type 0
  IsClean r = All (λ h. ascii_lowercase h.0 ≡ "payment-signature" → IsPayment h.1) r.headers

  -- All that was signed is authorized, and all that was sent is clean.
  pub record IsSafe (w : World) : Type 0 where
    pub signed : All IsAuthorized w.signed
    pub sent : All IsClean w.sent

  sign_exact-IsSafe :
      (accept : PaymentAccept) (amount : ℕ) (w : World)
      → IsAcceptable p.protocol config accept amount
      → IsSafe w
      → IsSafe (sign_exact p wallet config accept.pay_to amount w).1
  sign_exact-IsSafe accept amount w acceptable safe = record {
    signed =
        elim (sign_exact_payment-signed p.protocol p.crypto p.solana p.net wallet config.rpc_url
          accept.pay_to amount w) [
            | inl same ↦ rw same safe.signed
            | inr (t, built, grown) ↦ rw grown (
              record { accept = accept; amount = amount; acceptable = acceptable; built = built },
              safe.signed,
            )
          ];
    sent =
        elim (sign_exact_payment-sent p.protocol p.crypto p.solana p.net wallet config.rpc_url
          accept.pay_to amount w) [
            | inl same ↦ rw same safe.sent
            | inr grown ↦ rw grown (tt, safe.sent)
          ];
  }

  IsAcceptable-of_Checked :
      (pr : PaymentRequired) (accept : PaymentAccept) (amount : ℕ)
      → Checked p wallet config pr accept amount
      → IsAcceptable p.protocol config accept amount
  IsAcceptable-of_Checked pr accept amount c =
      IsAcceptable-of_checks p.protocol config pr.accepts accept amount c.picked c.recipient
        c.parsed c.within

  pub sign-IsSafe :
      (pr : PaymentRequired) (w : World)
      → IsSafe w
      → IsSafe (sign_payment_for_402_with_amount p wallet config pr w).1
  sign-IsSafe pr w safe = elim (sign-world p wallet config pr w) [
    | inl same ↦ rw same safe
    | inr (accept, amount, checked, e) ↦
        rw e (
          sign_exact-IsSafe accept amount w (IsAcceptable-of_Checked pr accept amount checked) safe)
  ]

  -- If signing succeeds, the header is a payment: it encodes the payload of a transfer that the
  -- configuration allows, whose transaction the wallet's key signed.
  pub sign-IsPayment :
      (pr : PaymentRequired) (w : World) (header : String) (amount : ℕ)
      → (sign_payment_for_402_with_amount p wallet config pr w).0 ≡ done (header, amount)
      → IsPayment header
  sign-IsPayment pr w header amount h =
      let s = sign-done p wallet config pr w header amount h in
      let (t, built, grown, transaction) =
        sign_exact_payment-done p.protocol p.crypto p.solana p.net wallet config.rpc_url
          s.accept.pay_to amount w s.text s.signed in
      record {
        transfer = t;
        authorized = record {
          accept = s.accept;
          amount = amount;
          acceptable =
              IsAcceptable-of_checks p.protocol config pr.accepts s.accept amount s.picked
                s.recipient s.parsed s.within;
          built = built;
        };
        resource = pr.resource;
        text = s.text;
        world = w;
        transaction = transaction;
        encoded = s.encoded;
      }

  pub paid-IsClean :
      (url header : String) (req : ChatRequest)
      → IsPayment header
      → IsClean (post url ((payment_signature, header) ∷ []) req)
  paid-IsClean url header req paid = (λ _. paid, tt)

  pub pay-IsSafe :
      (url : String) (req : ChatRequest) (pr : PaymentRequired) (w : World)
      → IsSafe w
      → IsSafe (pay_and_resend_with_amount p wallet config url req pr w).1
  pay-IsSafe url req pr w safe =
      let signed = sign-IsSafe pr w safe in
      elim (pay-world p wallet config url req pr w) [
        | inl same ↦ rw same signed
        | inr (header, amount, got, sent, kept) ↦ record {
          signed = rw kept signed.signed;
          sent =
              rw sent
                (paid-IsClean url header req (sign-IsPayment pr w header amount got), signed.sent);
        }
      ]
