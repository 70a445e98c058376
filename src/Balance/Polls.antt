-- ===== src/Balance/Polls.antt =====
-- What the monitor of crates/solvela-client/src/balance.rs has read after some ticks.
use mathlib.Core.List.{foldl}
use solvela_client.Base.{ℕ, zero, suc, List, [], ◌∷◌, ◌≡◌, refl, length}
use solvela_client.Base.Outcome.{Result}
use solvela_client.Wallet.{Bytes}
use solvela_client.Net.{HttpRequest, World, exchange}
use solvela_client.Platform.{Platform}
use solvela_client.Floats.{Floats}
use solvela_client.Balance.{
  BalanceError, BalanceMonitor, Watch, balance_request, read_balance, fetch_balance, observe, poll,
  polls,
}

module _ (F : Floats) (p : Platform) (m : BalanceMonitor F) (ata : Bytes) where
  abbrev request : HttpRequest
  request = balance_request m.rpc_url (p.solana.display_pubkey ata)

  -- What the servers answer to so many calls in a row.
  unfoldable pub answers : ℕ → List HttpRequest → List (Result BalanceError F.F64)
  answers zero sent = []
  answers (suc n) sent = read_balance F (p.net (request ∷ sent)).reply ∷ answers n (request ∷ sent)

  unfoldable pub repeated : ℕ → List HttpRequest → List HttpRequest
  repeated zero sent = sent
  repeated (suc n) sent = repeated n (request ∷ sent)

  pub polls-answers :
      (waits : List ℕ) (s : Watch F) (w : World)
      → ((polls F p m ata waits (s, w)).0 ≡ foldl (observe F m) s (answers (length waits) w.sent))
        × ((polls F p m ata waits (s, w)).1.sent ≡ repeated (length waits) w.sent)
        × ((polls F p m ata waits (s, w)).1.signed ≡ w.signed)
  unfolding answers repeated polls poll fetch_balance exchange
  polls-answers [] s w = (refl, refl, refl)
  polls-answers (wait ∷ waits) s w =
      polls-answers waits (poll F p m ata wait (s, w)).0 (poll F p m ata wait (s, w)).1
