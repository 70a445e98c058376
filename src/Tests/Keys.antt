-- ===== src/Tests/Keys.antt =====
-- The theorems on the wallet, for keys that are any 64 bytes.
use solvela_client.Base.{
  ℕ, zero, suc, String, List, [], ◌∷◌, some, ◌≡◌, refl, arith, nat_eq, length, inl, inr, ◌++◌, ◌+◌,
  length-append,
}
use solvela_client.Base.Outcome.{done}
use solvela_client.Signer.Total.{IsTotal}
use solvela_client.Error.{WalletError}
use solvela_client.Wallet.{
  Bytes, Wallet, keypair, create, from_mnemonic, from_keypair_b58, to_keypair_b58,
}
use solvela_client.Wallet.Laws.{
  IsLawful, IsValid, imported-IsValid, from_keypair_b58-to_keypair_b58, from_mnemonic-create,
}
use solvela_client.Tests.Fixtures.{encode, decode, zeros, crypto, wallet, solana}

pub decode-encode : (ns : List ℕ) → decode (encode ns) ≡ ns
unfolding nat_eq
decode-encode [] = refl
decode-encode (zero ∷ ns) = rw (decode-encode ns)
decode-encode (suc n ∷ ns) = rw (decode-encode (n ∷ ns))

length-twice : (xs : Bytes) → length (xs ++ xs) ≡ length xs + length xs
length-twice xs = length-append xs xs

pub crypto-IsLawful : IsLawful crypto
unfolding nat_eq
crypto-IsLawful = record {
  keypair_bytes = λ b kp h. ground arith;
  keypair_derived = λ secret h. ground (arith, length-twice secret);
  generates = λ entropy. (entropy, refl);
  parse-display = λ m. rw (decode-encode m);
  seed_length = λ m. refl;
  decode-encode = λ b. rw (decode-encode b);
}

imported-IsValid_example :
    IsValid crypto wallet × (keypair crypto {E = WalletError} wallet ≡ done wallet.keypair_bytes)
unfolding from_keypair_b58 nat_eq
imported-IsValid_example =
    imported-IsValid crypto crypto-IsLawful (λ var. some "") (1 ∷ []) (encode (zeros 64)) "" "HOME"
      wallet (inr (inl refl))

pub wallet-IsValid : IsValid crypto wallet
unfolding nat_eq
wallet-IsValid = record { accepted = refl; size = refl }

from_keypair_b58-to_keypair_b58_example :
    from_keypair_b58 crypto (to_keypair_b58 crypto wallet) ≡ done wallet
from_keypair_b58-to_keypair_b58_example =
    from_keypair_b58-to_keypair_b58 crypto crypto-IsLawful wallet wallet-IsValid

from_mnemonic-create_example :
    (w : Wallet) × (phrase : String) × (create crypto (3 ∷ 1 ∷ []) ≡ done (w, phrase))
    × (from_mnemonic crypto phrase ≡ done w)
    × IsValid crypto w
from_mnemonic-create_example = from_mnemonic-create crypto crypto-IsLawful (3 ∷ 1 ∷ [])

pub solana-IsTotal : IsTotal solana
unfolding nat_eq
solana-IsTotal = record {
  ata_program = _;
  parses = refl;
  writes = λ payload. (payload.accepted.pay_to, refl);
  signs = λ t ix kp hash made size authority. (ix ++ hash, refl);
}
