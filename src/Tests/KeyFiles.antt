-- ===== src/Tests/KeyFiles.antt =====
-- The theorems on key files, for a file that others can read.
use solvela_client.Base.{
  String, Bool, true, false, none, some, [], ◌∷◌, ◌≡◌, ◌≢◌, refl, arith, is_some, string_eq, nat_eq,
}
use solvela_client.Base.Outcome.{ok, done}
use solvela_client.Base.Dict.{lookup, insert}
use solvela_client.Text.{strip_prefix}
use solvela_client.Wallet.{Bytes, to_keypair_bytes}
use solvela_client.KeyFile.{
  WalletArgs, Files, Os, expand_home, load_wallet, mode_after, save_wallet, write_file,
}
use solvela_client.KeyFile.Laws.{save_wallet_lem, load_wallet-save_wallet}
use solvela_client.Tests.Fixtures.{encode, decode, crypto, wallet}
use solvela_client.Tests.Keys.{decode-encode, wallet-IsValid}

abbrev pub os : Os
os = record {
  home_dir = some "/home/u";
  env = λ var. none;
  join = λ dir rest. "/home/u/w";
  parent = λ path. some "/home/u";
  refuse_read = λ path. none;
  refuse_create_dir = λ path. none;
  refuse_open = λ path. none;
  refuse_write = λ path. none;
  cut_off = λ text. "";
  bytes_json = λ bytes. ok (encode bytes);
  parse_bytes = λ text. ok (decode text);
}

abbrev files : Files
files = ("/home/u/w", record { contents = ""; mode = 0x1a4 }) ∷ []

abbrev pub args : WalletArgs
args = record { wallet_env = "KEY"; wallet_file = "~/w" }

save_wallet_lem_example :
    let expanded = expand_home os "~/w" in
    let saved = save_wallet os files "~/w" (1 ∷ []) true in
    (◌≡◌ {A = Bool} true false
      → is_some (lookup expanded files) ≡ true
      → (saved.1 ≡ files) × ((p : String) → saved.0 ≢ done p))
    × ((other : String) → expanded ≢ other → lookup other saved.1 ≡ lookup other files)
    × ((p : String)
        → saved.0 ≡ done p
        → (p ≡ expanded)
          × ((json : String) × (os.bytes_json (1 ∷ []) ≡ ok json)
              × (lookup expanded saved.1
                  ≡ some (record { contents = json; mode = mode_after (lookup expanded files) }))))
save_wallet_lem_example = save_wallet_lem os files "~/w" (1 ∷ []) true

pub reads :
    (bytes : Bytes) (json : String) → os.bytes_json bytes ≡ ok json → os.parse_bytes json ≡ ok bytes
reads bytes json h =
    let same : encode bytes ≡ json = ground arith in rw (← same, decode-encode bytes)

load_wallet-save_wallet_example :
    load_wallet crypto os (save_wallet os files "~/w" (to_keypair_bytes wallet) true).1 args
    ≡ done wallet
unfolding save_wallet expand_home strip_prefix write_file lookup string_eq insert nat_eq
load_wallet-save_wallet_example =
    load_wallet-save_wallet crypto os files args wallet true "/home/u/w" wallet-IsValid reads refl
      refl refl
