-- ===== src/KeyFile/Laws.antt =====
-- The key files of crates/solvela-client-cli-args/src/lib.rs: nothing is overwritten unasked, and a
-- wallet that was saved is loaded again.
use solvela_client.Base.{
  if◌then◌else◌, ◌&&◌, ◌<>◌, String, Bool, true, false, not, Option, none, some, ◌≡◌, ◌≢◌, refl,
  arith, is_some, inl, inr, string_eq, nat_eq, ◌&&◌, ◌⊎◌, Option-cases,
}
use solvela_client.Base.Outcome.{Result, ok, err, Outcome, done, fail, panic, Result-cases}
use solvela_client.Base.Dict.{lookup, lookup-insert_self, lookup-insert_ne}
use solvela_client.Error.{WalletError}
use solvela_client.Wallet.{
  Bytes, Crypto, Wallet, from_keypair_b58, from_keypair_bytes, to_keypair_bytes,
}
use solvela_client.Wallet.Laws.{IsValid}
use solvela_client.KeyFile.{
  WalletArgs, File, Files, Os, expand_home, nonempty, load_file, load_wallet, mode_after,
  refuse_parent, write_file, save_wallet, explain,
}

module _ (os : Os) (files : Files) where
  write_file_lem :
      (expanded json : String)
      → ((other : String)
          → expanded ≢ other
          → lookup other (write_file os files expanded json).1 ≡ lookup other files)
        × ((p : String)
            → (write_file os files expanded json).0 ≡ done p
            → (p ≡ expanded)
              × (lookup expanded (write_file os files expanded json).1
                  ≡ some (record { contents = json; mode = mode_after (lookup expanded files) })))
  unfolding write_file
  write_file_lem expanded json =
      let mode = mode_after (lookup expanded files) in
      let whole : File = record { contents = json; mode = mode } in
      let cut : File = record { contents = os.cut_off json; mode = mode } in
      (
        λ other ne. ground (
          arith,
          lookup-insert_ne expanded other whole files ne,
          lookup-insert_ne expanded other cut files ne,
        ),
        λ p h. (ground arith, ground (arith, lookup-insert_self expanded whole files)),
      )

module _ (os : Os) (files : Files) (path : String) (bytes : Bytes) (force : Bool) where
  -- The call has failed and changed nothing, or has come to write the keypair's JSON.
  abbrev Cases : Outcome String String × Files → Type 0
  Cases saved =
      ((e : String) × (saved ≡ (fail e, files)))
      ⊎ ((json : String) × (os.bytes_json bytes ≡ ok json)
          × ((is_some (lookup (expand_home os path) files) && not force) ≡ false)
          × (saved ≡ write_file os files (expand_home os path) json))

  save_wallet-Cases : Cases (save_wallet os files path bytes force)
  unfolding save_wallet
  save_wallet-Cases =
      go (is_some (lookup (expand_home os path) files) && not force)
        (refuse_parent os (expand_home os path)) (os.bytes_json bytes) refl refl
    where
      go :
          (there : Bool) (refused : Option String) (text : Result String String)
          → (is_some (lookup (expand_home os path) files) && not force) ≡ there
          → os.bytes_json bytes ≡ text
          → Cases (
              if there
              then (
                fail (
                    "wallet file already exists at "
                    <> (expand_home os path <> " (use --force to overwrite)")),
                files,
              )
              else elim refused [
                | some e ↦ (fail e, files)
                | none ↦ elim text [
                  | err e ↦ (fail ("failed to serialize keypair: " <> e), files)
                  | ok json ↦ write_file os files (expand_home os path) json
                ]
              ])
      go true refused text h e = inl (_, refl)
      go false (some r) text h e = inl (r, refl)
      go false none (err r) h e = inl (_, refl)
      go false none (ok json) h e = inr (json, e, h, refl)

  -- Without force a file that is there stays as it is, and the call fails. In every case no other
  -- file changes. If the call returns, it returns the expanded path, and the file there holds the
  -- keypair's JSON; a new file is for its owner alone, but an old one keeps its permissions.
  pub save_wallet_lem :
      let expanded = expand_home os path in
      let saved = save_wallet os files path bytes force in
      (force ≡ false
        → is_some (lookup expanded files) ≡ true
        → (saved.1 ≡ files) × ((p : String) → saved.0 ≢ done p))
      × ((other : String) → expanded ≢ other → lookup other saved.1 ≡ lookup other files)
      × ((p : String)
          → saved.0 ≡ done p
          → (p ≡ expanded)
            × ((json : String) × (os.bytes_json bytes ≡ ok json)
                × (lookup expanded saved.1
                    ≡ some
                        (record { contents = json; mode = mode_after (lookup expanded files) }))))
  save_wallet_lem = elim save_wallet-Cases [
    | inl (e, failed) ↦
        rw failed
          (λ unforced there. (refl, λ p h. cc), λ other ne. refl, λ p h. absurd (ground arith))
    | inr (json, made, free, written) ↦
        let (others, returned) = write_file_lem os files (expand_home os path) json in
        rw written (
          λ unforced there. absurd (ground arith),
          others,
          λ p h. ((returned p h).0, (json, made, (returned p h).1)),
        )
  ]

-- If the crates obey their laws and the JSON of bytes is read back: when saving a wallet with an
-- accepted keypair returns, and the file can be read, loading from the same path, with the
-- environment variable unset or empty, gives that wallet.
pub load_wallet-save_wallet :
    (k : Crypto) (os : Os) (files : Files) (args : WalletArgs) (w : Wallet) (force : Bool)
    (p : String)
    → IsValid k w
    → ((bytes : Bytes) (json : String)
        → os.bytes_json bytes ≡ ok json
        → os.parse_bytes json ≡ ok bytes)
    → nonempty (os.env args.wallet_env) ≡ none
    → os.refuse_read (expand_home os args.wallet_file) ≡ none
    → (save_wallet os files args.wallet_file (to_keypair_bytes w) force).0 ≡ done p
    → load_wallet k os (save_wallet os files args.wallet_file (to_keypair_bytes w) force).1 args
      ≡ done w
unfolding load_wallet load_file from_keypair_bytes
load_wallet-save_wallet k os files args w force p valid reads unset readable saved =
    let (same, (json, made, stored)) =
      (save_wallet_lem os files args.wallet_file (to_keypair_bytes w) force).2 p saved in
    rw
      (
        load_wallet,
        unset,
        stored,
        load_file,
        readable,
        reads _ json made,
        from_keypair_bytes,
        valid.accepted,
        valid.size,
      )
      refl

explain_ne_panic :
    (what : String) (o : Outcome WalletError Wallet) → o ≢ panic → explain what o ≢ panic
explain_ne_panic what (done w) h e = cc e
explain_ne_panic what (fail x) h e = cc e
explain_ne_panic what panic h e = h refl

from_keypair_bytes_ne_panic : (k : Crypto) (bytes : Bytes) → from_keypair_bytes k bytes ≢ panic
unfolding from_keypair_bytes
from_keypair_bytes_ne_panic k bytes h = ground arith

from_keypair_b58_ne_panic : (k : Crypto) (b58 : String) → from_keypair_b58 k b58 ≢ panic
unfolding from_keypair_b58
from_keypair_b58_ne_panic k b58 h = elim (Result-cases (k.b58_decode b58)) [
  | inl (bytes, read) ↦ from_keypair_bytes_ne_panic k bytes (rw read at h)
  | inr (e, failed) ↦ absurd (cc (rw failed at h))
]

load_file_ne_panic :
    (k : Crypto) (os : Os) (expanded : String) (file : File) → load_file k os expanded file ≢ panic
unfolding load_file
load_file_ne_panic k os expanded file h = elim (Option-cases (os.refuse_read expanded)) [
  | inr (e, refused) ↦ absurd (cc (rw (refused, load_file) at h))
  | inl readable ↦ elim (Result-cases (os.parse_bytes file.contents)) [
    | inr (e, failed) ↦ absurd (cc (rw (readable, failed, load_file) at h))
    | inl (bytes, read) ↦
        explain_ne_panic _ (from_keypair_bytes k bytes) (from_keypair_bytes_ne_panic k bytes)
          (rw (readable, read, load_file) at h)
  ]
]

-- Loading a wallet does not panic.
pub load_wallet_ne_panic :
    (k : Crypto) (os : Os) (files : Files) (args : WalletArgs) → load_wallet k os files args ≢ panic
unfolding load_wallet
load_wallet_ne_panic k os files args h = elim (Option-cases (nonempty (os.env args.wallet_env))) [
  | inr (val, given) ↦
      explain_ne_panic _ (from_keypair_b58 k val) (from_keypair_b58_ne_panic k val)
        (rw (given, load_wallet) at h)
  | inl unset ↦ elim (Option-cases (lookup (expand_home os args.wallet_file) files)) [
    | inr (file, there) ↦
        load_file_ne_panic k os (expand_home os args.wallet_file) file
          (rw (unset, there, load_wallet) at h)
    | inl missing ↦ absurd (cc (rw (unset, missing, load_wallet) at h))
  ]
]
