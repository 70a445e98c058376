-- ===== src/Client/Unpaid.antt =====
-- The queries of crates/solvela-client/src/client.rs, which never pay.
use solvela_client.Base.{◌∷◌, ◌≡◌, refl, inl, inr, ◌⊎◌, [], String, ◌≢◌, arith, ◌≤◌, ◌+◌}
use solvela_client.Base.Outcome.{Outcome, panic, Result-cases}
use solvela_client.Base.Exec.{lift, ◌>>=◌, bind-post}
use solvela_client.Error.{ClientError, NetError}
use solvela_client.Config.{ClientConfig}
use solvela_client.Wallet.{Wallet}
use solvela_client.Net.{HttpRequest, HttpResponse, World, send, requests}
use solvela_client.Handshake.Requests.{exchange-requests}
use solvela_client.Platform.{Platform}
use solvela_client.Floats.{Floats}
use solvela_client.Handshake.{text}
use solvela_client.Handshake.Safety.{IsSafe}
use solvela_client.Handshake.Budget.{spent}
use solvela_client.Client.Queries.{models, estimate_cost}
use solvela_client.Client.Funds.{account_of, usdc_balance_of, read_usdc_balance}
use solvela_client.Signer.Total.{
  IsTotal, NoPanic, NoPanic-bind, send-NoPanic, associated_token_address_ne_panic,
}

-- The second world comes after the first by at most one request of the program, which has no headers.
pub record Unpaid (v w : World) : Type 0 where
  pub signed : w.signed ≡ v.signed
  pub sent : (w.sent ≡ v.sent) ⊎ ((r : HttpRequest) × (r.headers ≡ []) × (w.sent ≡ r ∷ v.sent))
  pub few : requests w ≤ requests v + 11

pub Unpaid-refl : (w : World) → Unpaid w w
Unpaid-refl w = record { signed = refl; sent = inl refl; few = omega arith }

module _ (p : Platform) where
  pub send-Unpaid {ℓ} :
      {E : Type ℓ} (f : NetError → E) (r : HttpRequest) (w : World)
      → r.headers ≡ []
      → Unpaid w (send f p.net r w).1
  unfolding send
  send-Unpaid f r w bare = record {
    signed = refl;
    sent = inr (r, bare, refl);
    few = exchange-requests p.net r w;
  }

  -- A request whose answer is only read.
  reads-Unpaid :
      {A B : Type 0} (r : HttpRequest) (w : World) (g : HttpResponse → Outcome ClientError A)
      (h : HttpResponse → A → Outcome ClientError B)
      → r.headers ≡ []
      → Unpaid w
          ((send ClientError.network p.net r >>= (λ resp. lift (g resp) >>= (λ a. lift (h resp a))))
            w).1
  reads-Unpaid r w g h bare =
      let sent = send-Unpaid ClientError.network r w bare in
      bind-post (λ _ u. Unpaid w u) (send ClientError.network p.net r) _ w
        (λ resp _.
          bind-post (λ _ u. Unpaid w u) (lift (g resp)) _ _ (λ _ _. sent) (λ _ _. sent) (λ _. sent))
        (λ _ _. sent) (λ _. sent)

  pub IsSafe-of_Unpaid :
      (wallet : Wallet) (config : ClientConfig) (v w : World)
      → Unpaid v w
      → IsSafe p wallet config v
      → IsSafe p wallet config w
  IsSafe-of_Unpaid wallet config v w unpaid safe = record {
    signed = rw unpaid.signed safe.signed;
    sent = elim unpaid.sent [
      | inl same ↦ rw same safe.sent
      | inr (r, bare, grown) ↦ rw (grown, bare) (tt, safe.sent)
    ];
  }

  pub spent-of_Unpaid : (v w : World) → Unpaid v w → spent w ≡ spent v
  spent-of_Unpaid v w unpaid = rw unpaid.signed refl

  pub models-Unpaid : (config : ClientConfig) (w : World) → Unpaid w (models p config w).1
  unfolding models
  models-Unpaid config w = reads-Unpaid _ w text _ refl

  pub estimate_cost-Unpaid :
      (wallet : Wallet) (config : ClientConfig) (model : String) (w : World)
      → Unpaid w (estimate_cost p wallet config model w).1
  unfolding estimate_cost
  estimate_cost-Unpaid wallet config model w = reads-Unpaid _ w text _ refl

module _ (F : Floats) (p : Platform) where
  pub usdc_balance_of-Unpaid :
      (config : ClientConfig) (owner : String) (w : World)
      → Unpaid w (usdc_balance_of F p config owner w).1
  unfolding usdc_balance_of
  usdc_balance_of-Unpaid config owner w =
      bind-post (λ _ u. Unpaid w u) (lift (account_of F p config owner)) _ w
        (λ a _.
          let sent = send-Unpaid p (λ e. ClientError.balance_error e.message) _ w refl in
          bind-post (λ _ u. Unpaid w u) (send (λ e. ClientError.balance_error e.message) p.net _) _
            w (λ _ _. sent) (λ _ _. sent) (λ _. sent))
        (λ _ _. Unpaid-refl w) (λ _. Unpaid-refl w)

  -- A query of a balance does not panic.
  pub usdc_balance_of-NoPanic :
      IsTotal p.solana
      → (config : ClientConfig) (owner : String) → NoPanic (usdc_balance_of F p config owner)
  unfolding usdc_balance_of account_of read_usdc_balance
  usdc_balance_of-NoPanic total config owner =
      NoPanic-bind (lift (account_of F p config owner)) _ (λ s. account_of_ne_panic)
        (λ ata.
          NoPanic-bind (send (λ e. ClientError.balance_error e.message) p.net _) _
            (send-NoPanic _ p.net _) (λ resp s h. ground arith))
    where
      account_of_ne_panic : account_of F p config owner ≢ panic
      account_of_ne_panic h = elim (Result-cases (p.solana.parse_pubkey owner)) [
        | inr (e, failed) ↦ absurd (cc (rw (failed, account_of) at h))
        | inl (key, read) ↦ elim (Result-cases (p.solana.parse_pubkey p.protocol.usdc_mint)) [
          | inr (e, failed) ↦ absurd (cc (rw (read, failed, account_of) at h))
          | inl (mint, known) ↦
              associated_token_address_ne_panic p.solana total key mint
                (rw (read, known, account_of) at h)
        ]
      ]
