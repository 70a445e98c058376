-- ===== src/Client/Funds.antt =====
-- crates/solvela-client/src/client.rs: the queries of balances, and the balance that the monitor has
-- stored.
use solvela_client.Base.{
  true, false, [], ◌∷◌, Bool-cases, Option-cases, inl, inr, String, ◌<>◌, Option, none, some, ◌≡◌,
  refl, ◌==◌, nat_eq, if◌then◌else◌,
}
use solvela_client.Base.Outcome.{Result-cases, Result, ok, err, Outcome, done, fail, try}
use solvela_client.Base.Exec.{Exec, lift, continue, ◌>>=◌}
use solvela_client.Text.Digits.{u64_max}
use solvela_client.Error.{ClientError, NetError}
use solvela_client.Config.{ClientConfig}
use solvela_client.Wallet.{Bytes, Wallet, address}
use solvela_client.Cache.{LruCache}
use solvela_client.Net.{HttpRequest, rpc, HttpResponse, World, is_success, send, exchange}
use solvela_client.Payment.{associated_token_address, parsed}
use solvela_client.Platform.{Platform}
use solvela_client.Floats.{Floats, BalanceReply}
use solvela_client.Balance.{BalanceError, BalanceMonitor, amount_of, read_balance, fetch_balance}
use solvela_client.Client.{SolvelaClient}

abbrev failed_balance : String → String → ClientError
failed_balance what e = ClientError.balance_error (what <> e)

-- The JSON-RPC call of a query.
abbrev pub usdc_balance_request : String → Bytes → Platform → HttpRequest
usdc_balance_request rpc_url ata p = record {
  method = "POST";
  url = rpc_url;
  headers = [];
  payload = rpc "getTokenAccountBalance" (p.solana.display_pubkey ata ∷ []);
}

module _ (F : Floats) (p : Platform) (config : ClientConfig) where
  -- An error in the answer means that there is no account; an amount that is missing counts as zero.
  abbrev pub usdc_amount : BalanceReply F.F64 → F.F64
  usdc_amount json = elim json.has_error [
    | true ↦ F.zero
    | false ↦ elim json.ui_amount [ none ↦ F.zero | some ui_amount ↦ ui_amount ]
  ]

  -- What the answer is turned into.
  unfoldable pub read_usdc_balance : HttpResponse → Outcome ClientError F.F64
  read_usdc_balance resp =
      if is_success resp.status
      then elim (parsed F.balance_reply resp) [
        | err e ↦ fail (failed_balance "failed to parse RPC response: " e)
        | ok json ↦ done (usdc_amount json)
      ]
      else fail (failed_balance "RPC returned HTTP " (p.solana.display_status resp.status))

  -- The token account of an address.
  unfoldable pub account_of : String → Outcome ClientError Bytes
  unfolding associated_token_address
  account_of owner_address = elim (p.solana.parse_pubkey owner_address) [
    | err e ↦ fail (failed_balance "invalid address: " e)
    | ok owner ↦ elim (p.solana.parse_pubkey p.protocol.usdc_mint) [
      | err e ↦ fail (failed_balance "invalid USDC mint: " e)
      | ok mint ↦ associated_token_address p.solana owner mint
    ]
  ]

  unfoldable pub usdc_balance_of : String → Exec World ClientError F.F64
  usdc_balance_of owner_address = do
    ata ← lift (account_of owner_address)
    resp ←
        send (λ e. ClientError.balance_error e.message) p.net
          (usdc_balance_request config.rpc_url ata p)
    lift (read_usdc_balance resp)

  unfoldable pub usdc_balance : Wallet → Exec World ClientError F.F64
  unfolding usdc_balance_of address
  usdc_balance wallet = usdc_balance_of (address p.crypto wallet)

  -- The two readers of a balance take one answer for the same amount, and fail on the same answers.
  abbrev pub SameReading : Outcome ClientError F.F64 → Result BalanceError F.F64 → Type 0
  SameReading o r = (x : F.F64) → (o ≡ done x → r ≡ ok x) × (r ≡ ok x → o ≡ done x)

  usdc_amount-amount_of : (json : BalanceReply F.F64) → usdc_amount json ≡ amount_of F json
  usdc_amount-amount_of json = elim (Bool-cases json.has_error) [
    | inl absent ↦ rw absent refl
    | inr present ↦ elim (Option-cases json.ui_amount) [
      | inl missing ↦ rw (present, missing) refl
      | inr (x, given) ↦ rw (present, given) refl
    ]
  ]

  reads-SameReading :
      (resp : HttpResponse) → SameReading (read_usdc_balance resp) (read_balance F (ok resp))
  unfolding read_balance read_usdc_balance
  reads-SameReading resp x = elim (Bool-cases (is_success resp.status)) [
    | inr refused ↦ rw (refused, read_balance, read_usdc_balance) (λ h. cc, λ h. cc)
    | inl served ↦ elim (Result-cases (parsed F.balance_reply resp)) [
      | inr (e, failed) ↦ rw (served, failed, read_balance, read_usdc_balance) (λ h. cc, λ h. cc)
      | inl (json, read) ↦
          rw (served, read, read_balance, read_usdc_balance, usdc_amount-amount_of json)
            (λ h. cc, λ h. cc)
    ]
  ]

  abbrev after_send : Result NetError HttpResponse → World → Outcome ClientError F.F64 × World
  after_send r v =
      continue (try (λ e. ClientError.balance_error e.message) r)
        (λ resp. lift (read_usdc_balance resp)) v

  after_send-SameReading :
      (r : Result NetError HttpResponse) (v : World)
      → ((after_send r v).1 ≡ v) × SameReading (after_send r v).0 (read_balance F r)
  unfolding read_balance
  after_send-SameReading (err e) v = (refl, λ x. (λ h. cc, λ h. cc))
  after_send-SameReading (ok resp) v = (refl, reads-SameReading resp)

  -- For an address and a monitor of it at the same RPC server, whose token account is `ata`: the
  -- client's query and a poll of the monitor send the same request, and read the same amount from
  -- the answer, or both fail.
  pub usdc_balance_of-fetch_balance :
      (m : BalanceMonitor F) (ata : Bytes) (w : World)
      → m.rpc_url ≡ config.rpc_url
      → account_of m.wallet_address ≡ done ata
      → ((usdc_balance_of m.wallet_address w).1 ≡ (fetch_balance F p m ata w).1)
        × SameReading (usdc_balance_of m.wallet_address w).0 (fetch_balance F p m ata w).0
  unfolding usdc_balance_of fetch_balance send exchange
  usdc_balance_of-fetch_balance m ata w same found = rw (found, same) (after_send-SameReading _ _)

module _ (F : Floats) (L : LruCache) where
  unfoldable pub last_known_balance : SolvelaClient L → Option F.F64
  unfolding nat_eq
  last_known_balance client =
      if client.balance_state == u64_max
      then none
      else some (F.div (F.of_u64 client.balance_state) F.million)
