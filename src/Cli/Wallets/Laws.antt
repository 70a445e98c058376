-- ===== src/Cli/Wallets/Laws.antt =====
-- What the wallet commands of crates/solvela-client-cli/src/commands/wallet.rs promise.
use solvela_client.Base.{
  String, ◌<>◌, Bool, [], ◌∷◌, List, ◌++◌, ◌≡◌, refl, inl, inr, none, string_eq,
}
use solvela_client.Base.Outcome.{ok, done, Outcome-cases}
use solvela_client.Wallet.{Bytes, Wallet, address, from_mnemonic, to_keypair_bytes, to_keypair_b58}
use solvela_client.Wallet.Laws.{IsLawful, from_mnemonic-create}
use solvela_client.Wallet
use solvela_client.KeyFile.{WalletArgs, nonempty, expand_home, load_wallet, save_wallet}
use solvela_client.KeyFile.Laws.{load_wallet-save_wallet}
use solvela_client.Platform.{Platform}
use solvela_client.Cli.{Host, Shell}
use solvela_client.Cli.Wallets.{do_create, create, do_address, show_address}

module _ (p : Platform) (host : Host) (args : WalletArgs) where
  -- What `create` prints, the last line first.
  abbrev pub created_lines : Wallet → String → String → List String
  created_lines wallet phrase path =
      "=== END SEED PHRASE ===\n"
      ∷ (phrase <> "\n")
      ∷ "=== BACKUP YOUR SEED PHRASE ===\n"
      ∷ "\n"
      ∷ (("Wallet saved to: " <> path) <> "\n")
      ∷ "\n"
      ∷ "===\n"
      ∷ (address p.crypto wallet <> "\n")
      ∷ "===\n"
      ∷ []

  create-saved :
      (force : Bool) (s : Shell) (w : Wallet) (phrase path : String)
      → Wallet.create p.crypto host.entropy ≡ done (w, phrase)
      → (save_wallet host.os s.files args.wallet_file (to_keypair_bytes w) force).0 ≡ done path
      → create p host args force s ≡ (
        done tt,
        record s {
          files = (save_wallet host.os s.files args.wallet_file (to_keypair_bytes w) force).1;
          stdout = created_lines w phrase path ++ s.stdout;
        },
      )
  unfolding create do_create
  create-saved force s w phrase path made kept = rw (made, kept) refl

  create-done :
      (force : Bool) (s : Shell) (w : Wallet) (phrase : String)
      → Wallet.create p.crypto host.entropy ≡ done (w, phrase)
      → (create p host args force s).0 ≡ done tt
      → (path : String) × ((save_wallet host.os s.files args.wallet_file
            (to_keypair_bytes w)
            force).0
          ≡ done path)
  unfolding create do_create
  create-done force s w phrase made h =
      elim (Outcome-cases
        (save_wallet host.os s.files args.wallet_file (to_keypair_bytes w) force).0) [
          | inl found ↦ found
          | inr (inl (e, failed)) ↦ absurd (cc (rw (made, failed) at h))
          | inr (inr panicked) ↦ absurd (cc (rw (made, panicked) at h))
        ]

  show_address-loaded :
      (s : Shell) (w : Wallet)
      → load_wallet p.crypto host.os s.files args ≡ done w
      → show_address p host args s
        ≡ (done tt, record s { stdout = (address p.crypto w <> "\n") ∷ s.stdout })
  unfolding show_address do_address
  show_address-loaded s w found = rw found refl

  -- If the crates obey their laws, JSON of bytes is read back, the environment names no wallet and
  -- the key file can be read: when `wallet create` returns, it has printed the address and the seed
  -- phrase of one wallet, the phrase restores that wallet, and `wallet address` afterwards prints
  -- that wallet's address.
  pub create-show_address :
      (force : Bool) (s : Shell)
      → let after = create p host args force s in
        IsLawful p.crypto
        → ((bytes : Bytes) (json : String)
            → host.os.bytes_json bytes ≡ ok json
            → host.os.parse_bytes json ≡ ok bytes)
        → nonempty (host.os.env args.wallet_env) ≡ none
        → host.os.refuse_read (expand_home host.os args.wallet_file) ≡ none
        → after.0 ≡ done tt
        → (w : Wallet) × (phrase : String) × (path : String) × (after.1.stdout
            ≡ created_lines w phrase path ++ s.stdout)
          × (from_mnemonic p.crypto phrase ≡ done w)
          × (show_address p host args after.1 ≡ (
            done tt,
            record after.1 { stdout = (address p.crypto w <> "\n") ∷ after.1.stdout },
          ))
  create-show_address force s law reads unset readable returned =
      let (w, phrase, made, restored, valid) = from_mnemonic-create p.crypto law host.entropy in
      let (path, kept) = create-done force s w phrase made returned in
      let same = create-saved force s w phrase path made kept in
      let found =
        load_wallet-save_wallet p.crypto host.os s.files args w force path valid reads unset
          readable kept in
      (w, phrase, path, rw same refl, restored, rw same (show_address-loaded _ w found))
