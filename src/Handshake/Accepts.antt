-- ===== src/Handshake/Accepts.antt =====
-- Which offer of a 402 answer crates/solvela-client/src/client.rs takes, and which it refuses.
use mathlib.Core.List.{Memᴰ}
use solvela_client.Base.{
  ℕ, ◌≤◌, String, true, none, some, List, [], ◌∷◌, ◌≡◌, ◌↔◌, refl, arith, All, Bool-cases, inl, inr,
  string_eq, sym,
}
use solvela_client.Base.Outcome.{done, ok, try-done}
use solvela_client.Text.Digits.{parse_u64}
use solvela_client.Protocol.{Protocol, PaymentAccept}
use solvela_client.Config.{ClientConfig}
use solvela_client.Handshake.{
  is_supported, pick_scheme, check_recipient, parse_amount, check_amount,
}

-- A direct transfer of USDC on Solana's main network, by the constants of the protocol.
pub record IsSupported (protocol : Protocol) (a : PaymentAccept) : Type 0 where
  pub scheme : a.scheme ≡ "exact"
  pub network : a.network ≡ protocol.solana_network
  pub asset : a.asset ≡ protocol.usdc_mint

is_supported_iff :
    (protocol : Protocol) (a : PaymentAccept)
    → (is_supported protocol a ≡ true) ↔ IsSupported protocol a
unfolding is_supported
is_supported_iff protocol a = (λ h. ground arith, λ s. ground (arith, s.scheme, s.network, s.asset))

-- The first supported offer is taken, and none only if none is supported.
pub pick_scheme_lem :
    (protocol : Protocol) (accepts : List PaymentAccept)
    → ((a : PaymentAccept)
        → pick_scheme protocol accepts ≡ some a
        → Memᴰ a accepts × IsSupported protocol a)
      × ((pick_scheme protocol accepts ≡ none) ↔ All (λ a. ¬ IsSupported protocol a) accepts)
unfolding pick_scheme
pick_scheme_lem protocol [] = (λ a h. absurd (ground arith), (λ h. tt, λ h. refl))
pick_scheme_lem protocol (b ∷ accepts) =
    let (sound, (to, from)) = pick_scheme_lem protocol accepts in
    let (yes_b, of_b) = is_supported_iff protocol b in
    elim (Bool-cases (is_supported protocol b)) [
      | inl good ↦ (
        λ a h. let same : b ≡ a = ground arith in (Memᴰ.head (sym same), rw same at (yes_b good)),
        (λ h. absurd (ground arith), λ (nb, rest). absurd (nb (yes_b good))),
      )
      | inr bad ↦ (
        λ a h. let (m, s) = sound a (ground arith) in (Memᴰ.tail m, s),
        (
          λ h. (λ s. cc (of_b s), to (ground arith)),
          λ (nb, rest). let e = from rest in ground arith,
        ),
      )
    ]

-- What the checks of the configuration ask of an offer and its amount.
pub record IsAcceptable (protocol : Protocol) (config : ClientConfig) (a : PaymentAccept)
    (amount : ℕ) : Type 0 where
  pub supported : IsSupported protocol a
  pub parsed : parse_u64 a.amount ≡ ok amount
  pub recipient : (e : String) → config.expected_recipient ≡ some e → a.pay_to ≡ e
  pub within : (max : ℕ) → config.max_payment_amount ≡ some max → amount ≤ max

pub IsAcceptable-of_checks :
    (protocol : Protocol) (config : ClientConfig) (accepts : List PaymentAccept) (a : PaymentAccept)
    (amount : ℕ)
    → pick_scheme protocol accepts ≡ some a
    → check_recipient config.expected_recipient a ≡ done tt
    → parse_amount a ≡ done amount
    → check_amount config.max_payment_amount amount ≡ done tt
    → IsAcceptable protocol config a amount
unfolding check_recipient parse_amount check_amount
IsAcceptable-of_checks protocol config accepts a amount picked recipient parsed within = record {
  supported = ((pick_scheme_lem protocol accepts).0 a picked).1;
  parsed = try-done _ (parse_u64 a.amount) parsed;
  recipient = λ e h. ground arith;
  within = λ max h. ground arith;
}
