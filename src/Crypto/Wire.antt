-- ===== src/Crypto/Wire.antt =====
-- The wire format of src/lib/crypto.ts: what `encryptSecret` wrote, `decryptSecret` reads.
use capybara_ai.Prelude.{
  true, false, ◌++◌, take, drop, length, ltb, ◌==◌, nat_eq, ◌≡◌, if◌then◌else◌, refl, arith,
  Bool-cases, inl, inr, length-append, take-append_left, drop-append_left, drop-drop,
}
use capybara_ai.Prelude.Effect.{ok, throw}
use capybara_ai.Crypto.{
  Bytes, Sealed, Ciphers, IsCipher, encrypt_secret, decrypt_secret, packed, unpack,
}

module _ (c : Ciphers) (law : IsCipher c) where
  -- The three parts are found again.
  unpack_lem :
      (iv key : Bytes) (s : Sealed)
      → length iv ≡ 12
      → length s.tag ≡ 16
      → unpack c (iv ++ (s.tag ++ s.enc)) key ≡ c.unseal key iv s.tag s.enc
  unpack_lem iv key s n m =
      let long : ltb (length (iv ++ (s.tag ++ s.enc))) 28 ≡ false =
        ground (arith, length-append iv (s.tag ++ s.enc), length-append s.tag s.enc) in
      let first : take 12 (iv ++ (s.tag ++ s.enc)) ≡ iv = rw (← n) (take-append_left iv _) in
      let rest : drop 12 (iv ++ (s.tag ++ s.enc)) ≡ s.tag ++ s.enc =
        rw (← n) (drop-append_left iv _) in
      let second : take 16 (s.tag ++ s.enc) ≡ s.tag = rw (← m) (take-append_left s.tag _) in
      let third : drop 16 (s.tag ++ s.enc) ≡ s.enc = rw (← m) (drop-append_left s.tag _) in
      let both : drop 28 (iv ++ (s.tag ++ s.enc)) ≡ s.enc =
        rw (← drop-drop 12 16 (iv ++ (s.tag ++ s.enc))) (rw rest third) in
      rw (long, first, rest, second, both) refl

  -- A text that was encrypted under a key of 32 bytes with a vector of 12 is read under that key. Of any
  -- other key the same blob is refused if the key has not 32 bytes, and else what the cipher answers
  -- to that key with the very vector, tag and ciphertext that were sealed.
  pub decrypt-encrypt :
      (iv text key other : Bytes)
      → length key ≡ 32
      → length iv ≡ 12
      → (blob : Bytes) × (encrypt_secret c iv text key ≡ ok blob)
        × (decrypt_secret c blob key ≡ ok text)
        × (decrypt_secret c blob other ≡ (
            if length other == 32
            then c.unseal other iv (c.seal key iv text).tag (c.seal key iv text).enc
            else throw "encryption key must be 32 bytes"))
  unfolding encrypt_secret decrypt_secret
  decrypt-encrypt iv text key other k n =
      let sealed = c.seal key iv text in
      let size : (length key == 32) ≡ true = (nat_eq.same_iff (length key) 32).1 k in
      let parts : (tried : Bytes)
          → unpack c (c.from_base64 (packed c iv sealed)) tried
            ≡ c.unseal tried iv sealed.tag sealed.enc =
        λ tried. rw law.base64 (unpack_lem iv tried sealed n (law.tag_size key iv text k n)) in
      (
        packed c iv sealed,
        rw size refl,
        rw (size, parts key) (law.opens key iv text k n),
        elim (Bool-cases (length other == 32)) [
          | inl fits ↦ rw (fits, parts other) refl
          | inr odd ↦ rw odd refl
        ],
      )
