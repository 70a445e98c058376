-- ===== src/Handshake/Total.antt =====
-- Signing a payment in crates/solvela-client/src/client.rs does not panic.
use solvela_client.Base.{ℕ, String, Option, none, some, ◌≢◌, arith, string_eq, refl}
use solvela_client.Base.Outcome.{Outcome, done, fail, panic, map_fail, ok_or}
use solvela_client.Base.Exec.{lift, pure, map_fail_exec}
use solvela_client.Error.{ClientError}
use solvela_client.Config.{ClientConfig}
use solvela_client.Protocol.{PaymentAccept, PaymentRequired}
use solvela_client.Wallet.{Wallet}
use solvela_client.Wallet.Laws.{IsValid}
use solvela_client.Signer.{sign_exact_payment}
use solvela_client.Signer.Total.{
  IsTotal, NoPanic, NoPanic-bind, try_ne_panic, sign_exact_payment-NoPanic,
  encode_payment_header_ne_panic,
}
use solvela_client.Platform.{Platform}
use solvela_client.Handshake.{
  pick_scheme, check_recipient, parse_amount, check_amount, sign_payment_for_402_with_amount,
  sign_payment_for_402, encode_payment_header, build_payment_payload,
}

module _ {ℓ κ μ} {E : Type ℓ} {F : Type κ} {A : Type μ} where
  map_fail_ne_panic : (f : E → F) (o : Outcome E A) → o ≢ panic → map_fail f o ≢ panic
  map_fail_ne_panic f (done a) h e = cc e
  map_fail_ne_panic f (fail x) h e = cc e
  map_fail_ne_panic f panic h e = h refl

check_recipient_ne_panic :
    (expected : Option String) (accept : PaymentAccept) → check_recipient expected accept ≢ panic
unfolding check_recipient
check_recipient_ne_panic none accept h = cc h
check_recipient_ne_panic (some expected) accept h = ground arith

check_amount_ne_panic : (max : Option ℕ) (amount : ℕ) → check_amount max amount ≢ panic
unfolding check_amount
check_amount_ne_panic none amount h = cc h
check_amount_ne_panic (some max) amount h = ground arith

ok_or_ne_panic : {A : Type 0} (e : ClientError) (o : Option A) → ok_or e o ≢ panic
ok_or_ne_panic e none h = cc h
ok_or_ne_panic e (some a) h = cc h

module _ (p : Platform) (wallet : Wallet) (config : ClientConfig) (total : IsTotal p.solana)
    (valid : IsValid p.crypto wallet) where
  pub sign-NoPanic :
      (pr : PaymentRequired) → NoPanic (sign_payment_for_402_with_amount p wallet config pr)
  unfolding sign_payment_for_402_with_amount parse_amount
  sign-NoPanic pr =
      NoPanic-bind
        (lift (ok_or ClientError.no_compatible_scheme (pick_scheme p.protocol pr.accepts))) _
        (λ s. ok_or_ne_panic _ _)
        (λ accept.
          NoPanic-bind (lift (check_recipient config.expected_recipient accept)) _
            (λ s. check_recipient_ne_panic _ accept)
            (λ recipient_ok.
              NoPanic-bind (lift (parse_amount accept)) _ (λ s. try_ne_panic _ _)
                (λ amount.
                  NoPanic-bind (lift (check_amount config.max_payment_amount amount)) _
                    (λ s. check_amount_ne_panic _ amount)
                    (λ amount_ok.
                      NoPanic-bind
                        (map_fail_exec ClientError.signing (
                          sign_exact_payment p.protocol p.crypto p.solana p.net wallet
                            config.rpc_url accept.pay_to amount))
                        _
                        (λ s. map_fail_ne_panic ClientError.signing _ (
                          sign_exact_payment-NoPanic p.solana total p.protocol p.crypto p.net wallet
                            config.rpc_url valid accept.pay_to amount s))
                        (λ signed_tx.
                          NoPanic-bind
                            (lift (
                              encode_payment_header p.solana
                                (build_payment_payload p.protocol pr.resource accept signed_tx)))
                            (λ header. pure (header, amount))
                            (λ s. encode_payment_header_ne_panic p.solana total _)
                            (λ header s h. cc h))))))

  pub sign_payment_for_402-NoPanic :
      (pr : PaymentRequired) → NoPanic (sign_payment_for_402 p wallet config pr)
  unfolding sign_payment_for_402
  sign_payment_for_402-NoPanic pr =
      NoPanic-bind (sign_payment_for_402_with_amount p wallet config pr) _ (sign-NoPanic pr)
        (λ (header, amount) s h. cc h)
