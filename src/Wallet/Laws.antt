-- ===== src/Wallet/Laws.antt =====
-- Round trips of the wallet of crates/solvela-client/src/wallet.rs, and why its key never panics.
use solvela_client.Base.{
  String, ◌++◌, ◌≡◌, arith, length, take, Option, ap, ◌∙◌, ◌⊎◌, length-take_le, inl, inr,
}
use solvela_client.Base.Outcome.{ok, done, ◌>>=◌, bind-done, try-done, try, ok_or}
use solvela_client.Error.{WalletError}
use solvela_client.Wallet.{
  Bytes, Crypto, Wallet, keypair, keypair_bytes_from_seed, create, from_mnemonic,
  from_keypair_bytes, from_keypair_b58, from_env, to_keypair_b58, from_validated_bytes,
}

-- What the wallet relies on. A keypair that is accepted is the bytes that were given, 64 of them; a
-- secret with its public key is accepted; a mnemonic is read back from its phrase, and its seed has
-- 64 bytes; base58 is read back from its text.
pub record IsLawful (k : Crypto) : Type 0 where
  pub keypair_bytes : (b kp : Bytes) → k.keypair_try_from b ≡ ok kp → (kp ≡ b) × (length b ≡ 64)
  pub keypair_derived :
      (secret : Bytes)
      → length secret ≡ 32
      → k.keypair_try_from (secret ++ k.verifying_key secret)
        ≡ ok (secret ++ k.verifying_key secret)
  pub generates : (entropy : Bytes) → (m : Bytes) × (k.generate entropy ≡ ok m)
  pub parse-display : (m : Bytes) → k.parse_mnemonic (k.display_mnemonic m) ≡ ok m
  pub seed_length : (m : Bytes) → length (k.to_seed m) ≡ 64
  pub decode-encode : (b : Bytes) → k.b58_decode (k.b58_encode b) ≡ ok b

module _ (k : Crypto) where
  -- The stored bytes are a keypair.
  pub record IsValid (w : Wallet) : Type 0 where
    pub accepted : k.keypair_try_from w.keypair_bytes ≡ ok w.keypair_bytes
    pub size : length w.keypair_bytes ≡ 64

  -- The key of a valid wallet can be rebuilt: `keypair` does not panic.
  pub keypair_valid {ℓ} :
      {E : Type ℓ} (w : Wallet) → IsValid w → keypair k {E = E} w ≡ done w.keypair_bytes
  unfolding keypair
  keypair_valid w v = rw v.accepted

module _ (k : Crypto) (law : IsLawful k) where
  IsValid-of_accepted :
      (b kp : Bytes) → k.keypair_try_from b ≡ ok kp → IsValid k (record { keypair_bytes = b })
  IsValid-of_accepted b kp h =
      let (same, size) = law.keypair_bytes b kp h in
      record { accepted = h ∙ ap ok same; size = size }

  from_keypair_bytes-IsValid :
      (b : Bytes) (w : Wallet) → from_keypair_bytes k b ≡ done w → IsValid k w
  unfolding from_keypair_bytes
  from_keypair_bytes-IsValid b w h =
      let (kp, tried, rest) = bind-done _ _ h in
      let same : b ≡ w.keypair_bytes = ground arith in
      IsValid-of_accepted w.keypair_bytes kp (rw same at (try-done _ (k.keypair_try_from b) tried))

  from_keypair_b58-IsValid :
      (b58 : String) (w : Wallet) → from_keypair_b58 k b58 ≡ done w → IsValid k w
  unfolding from_keypair_b58
  from_keypair_b58-IsValid b58 w h =
      let decode = try WalletError.invalid_keypair (k.b58_decode b58) in
      let (b, decoded, rest) = bind-done decode (from_keypair_bytes k) h in
      from_keypair_bytes-IsValid b w rest

  from_env-IsValid :
      (env : String → Option String) (var : String) (w : Wallet)
      → from_env k env var ≡ done w
      → IsValid k w
  unfolding from_env
  from_env-IsValid env var w h =
      let value = ok_or (WalletError.env_not_set var) (env var) in
      let (val, found, rest) = bind-done value (from_keypair_b58 k) h in
      from_keypair_b58-IsValid val w rest

  from_mnemonic-IsValid :
      (phrase : String) (w : Wallet) → from_mnemonic k phrase ≡ done w → IsValid k w
  unfolding from_mnemonic
  from_mnemonic-IsValid phrase w h =
      let check = λ (b : Bytes). try WalletError.invalid_mnemonic (k.keypair_try_from b) in
      let last = λ (b : Bytes). check b >>= (λ _. done (from_validated_bytes b)) in
      let (m, parsed, rest) =
        bind-done (try WalletError.invalid_mnemonic (k.parse_mnemonic phrase))
          (λ m. keypair_bytes_from_seed k (k.to_seed m) >>= last) h in
      let (b, derived, rest') = bind-done (keypair_bytes_from_seed k (k.to_seed m)) last rest in
      let (kp, tried, made) = bind-done (check b) (λ _. done (from_validated_bytes b)) rest' in
      let same : b ≡ w.keypair_bytes = ground arith in
      IsValid-of_accepted w.keypair_bytes kp (rw same at (try-done _ (k.keypair_try_from b) tried))

  -- If the crates obey their laws: whichever way key material is imported, a wallet that results
  -- holds an accepted keypair, and its key can be rebuilt without a panic.
  pub imported-IsValid :
      (env : String → Option String) (bytes : Bytes) (b58 phrase var : String) (w : Wallet)
      → (from_keypair_bytes k bytes ≡ done w)
        ⊎ ((from_keypair_b58 k b58 ≡ done w)
            ⊎ ((from_env k env var ≡ done w) ⊎ (from_mnemonic k phrase ≡ done w)))
      → IsValid k w × (keypair k {E = WalletError} w ≡ done w.keypair_bytes)
  imported-IsValid env bytes b58 phrase var w h = let v = valid h in (v, keypair_valid k w v)
    where
      valid :
          (from_keypair_bytes k bytes ≡ done w)
            ⊎ ((from_keypair_b58 k b58 ≡ done w)
                ⊎ ((from_env k env var ≡ done w) ⊎ (from_mnemonic k phrase ≡ done w)))
          → IsValid k w
      valid (inl a) = from_keypair_bytes-IsValid bytes w a
      valid (inr (inl b)) = from_keypair_b58-IsValid b58 w b
      valid (inr (inr (inl c))) = from_env-IsValid env var w c
      valid (inr (inr (inr d))) = from_mnemonic-IsValid phrase w d

  -- If the crates obey their laws, the exported base58 text of a wallet with an accepted keypair
  -- restores that wallet.
  pub from_keypair_b58-to_keypair_b58 :
      (w : Wallet) → IsValid k w → from_keypair_b58 k (to_keypair_b58 k w) ≡ done w
  unfolding from_keypair_b58 to_keypair_b58
  from_keypair_b58-to_keypair_b58 w v =
      ground (arith, law.decode-encode w.keypair_bytes, v.accepted, v.size)

  -- If the crates obey their laws, a new wallet is created without a panic, it holds an accepted
  -- keypair, and its phrase restores it.
  pub from_mnemonic-create :
      (entropy : Bytes)
      → (w : Wallet) × (phrase : String) × (create k entropy ≡ done (w, phrase))
        × (from_mnemonic k phrase ≡ done w)
        × IsValid k w
  unfolding create from_mnemonic
  from_mnemonic-create entropy =
      let (m, generated) = law.generates entropy in
      let secret : Bytes = take 32 (k.to_seed m) in
      let long = law.seed_length m in
      let accepted =
        law.keypair_derived secret (length-take_le 32 (k.to_seed m) (omega (arith, long))) in
      (
        record { keypair_bytes = secret ++ k.verifying_key secret },
        k.display_mnemonic m,
        ground (arith, generated, long, accepted),
        ground (arith, law.parse-display m, long, accepted),
        IsValid-of_accepted _ _ accepted,
      )
