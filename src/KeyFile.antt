-- ===== src/KeyFile.antt =====
-- crates/solvela-client-cli-args/src/lib.rs: where the programs find the wallet's key, and how they
-- store it, on Unix. The file system holds files by their paths, with the bits of their permissions;
-- paths, JSON, and what the operating system refuses are the parameter `Os`.
pub mod Laws
use solvela_client.Base.{
  ℕ, String, ◌<>◌, Bool, true, false, ◌&&◌, not, Option, none, some, if◌then◌else◌, is_some,
  string_eq,
}
use solvela_client.Base.Outcome.{Result, ok, err, Outcome, done, fail, panic}
use solvela_client.Base.Dict.{Dict, lookup, insert}
use solvela_client.Text.{strip_prefix, is_empty}
use solvela_client.Error.{WalletError, display_wallet_error}
use solvela_client.Wallet.{Bytes, Crypto, Wallet, from_keypair_b58, from_keypair_bytes}

pub record WalletArgs : Type 0 where
  pub wallet_env : String
  pub wallet_file : String

pub record File : Type 0 where
  pub contents : String
  pub mode : ℕ

abbrev pub Files : Type 0
Files = Dict String File

-- A refusal is its message. `cut_off` is what a failed write leaves of a text.
pub record Os : Type 0 where
  pub home_dir : Option String
  pub env : String → Option String
  pub join : String → String → String
  pub parent : String → Option String
  pub refuse_read : String → Option String
  pub refuse_create_dir : String → Option String
  pub refuse_open : String → Option String
  pub refuse_write : String → Option String
  pub cut_off : String → String
  pub bytes_json : Bytes → Result String String
  pub parse_bytes : String → Result String Bytes

abbrev pub owner_only : ℕ
owner_only = 0x180

unfoldable pub expand_home : Os → String → String
expand_home os path = elim (strip_prefix "~/" path) [
  | none ↦ path
  | some rest ↦ elim os.home_dir [ none ↦ path | some home ↦ os.join home rest ]
]

-- `map_err(|e| format!("{what}{e}"))` on a wallet.
abbrev pub explain : String → Outcome WalletError Wallet → Outcome String Wallet
explain what (done w) = done w
explain what (fail e) = fail (what <> display_wallet_error e)
explain what panic = panic

abbrev pub nonempty : Option String → Option String
nonempty none = none
nonempty (some val) = if is_empty val then none else some val

-- The wallet in a file that is there.
unfoldable pub load_file : Crypto → Os → String → File → Outcome String Wallet
load_file k os expanded file = elim (os.refuse_read expanded) [
  | some e ↦ fail ("failed to read " <> (expanded <> (": " <> e)))
  | none ↦ elim (os.parse_bytes file.contents) [
    | err e ↦ fail ("invalid wallet file format in " <> (expanded <> (": " <> e)))
    | ok bytes ↦ explain ("invalid keypair in " <> (expanded <> ": ")) (from_keypair_bytes k bytes)
  ]
]

unfoldable pub load_wallet : Crypto → Os → Files → WalletArgs → Outcome String Wallet
load_wallet k os files args = elim (nonempty (os.env args.wallet_env)) [
  | some val ↦ explain ("invalid keypair in " <> (args.wallet_env <> ": ")) (from_keypair_b58 k val)
  | none ↦
      let expanded = expand_home os args.wallet_file in
      elim (lookup expanded files) [
        | some file ↦ load_file k os expanded file
        | none ↦
            fail
              ("no wallet found: set " <> (args.wallet_env <> (" env var or create " <> expanded)))
      ]
]

-- `create_dir_all` on the parent, if there is one.
abbrev pub refuse_parent : Os → String → Option String
refuse_parent os expanded = elim (os.parent expanded) [
  | none ↦ none
  | some dir ↦ elim (os.refuse_create_dir dir) [
    | none ↦ none
    | some e ↦ some ("failed to create directory " <> (dir <> (": " <> e)))
  ]
]

-- Opening with `create`, `truncate` and `mode(0o600)`: only a new file gets that mode.
abbrev pub mode_after : Option File → ℕ
mode_after none = owner_only
mode_after (some file) = file.mode

-- The file is opened, which empties it, and written.
unfoldable pub write_file : Os → Files → String → String → Outcome String String × Files
write_file os files expanded json = elim (os.refuse_open expanded) [
  | some e ↦ (fail ("failed to create " <> (expanded <> (": " <> e))), files)
  | none ↦
      let mode = mode_after (lookup expanded files) in
      elim (os.refuse_write expanded) [
        | some e ↦ (
          fail ("failed to write " <> (expanded <> (": " <> e))),
          insert expanded (record { contents = os.cut_off json; mode = mode }) files,
        )
        | none ↦ (done expanded, insert expanded (record { contents = json; mode = mode }) files)
      ]
]

unfoldable pub save_wallet : Os → Files → String → Bytes → Bool → Outcome String String × Files
save_wallet os files path keypair_bytes force =
    let expanded = expand_home os path in
    if is_some (lookup expanded files) && not force
    then (
      fail ("wallet file already exists at " <> (expanded <> " (use --force to overwrite)")),
      files,
    )
    else elim (refuse_parent os expanded) [
      | some e ↦ (fail e, files)
      | none ↦ elim (os.bytes_json keypair_bytes) [
        | err e ↦ (fail ("failed to serialize keypair: " <> e), files)
        | ok json ↦ write_file os files expanded json
      ]
    ]
