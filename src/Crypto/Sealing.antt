-- ===== src/Crypto/Sealing.antt =====
-- crypto.go: Encrypt and Decrypt.
use nexus_stun.Common.{
  ◌≡◌, refl, sym, ap, ◌∙◌, inl, inr, Option, none, some, [], ◌++◌, ltb, length, length-append, take,
  drop, take-append-drop, take-length, Bytes, slice_at, ok, ◌>>=◌, arith, le→not_ltb, append-nil,
  Bool-cases,
}
use nexus_stun.Crypto.{Primitives, NoiseError, or_fail, open_failed, encrypt, decrypt}

-- What Encrypt made with a nonce of 12 bytes is decrypted to the plaintext under the same key, where the
-- AEAD opens what it sealed.
pub decrypt-encrypt :
    (p : Primitives) (key nonce plaintext : Bytes)
    → p.open_sealed key nonce (p.seal key nonce plaintext) ≡ some plaintext
    → length nonce ≡ 12
    → (encrypt p key (some nonce) plaintext >>= decrypt p key) ≡ ok plaintext
unfolding encrypt decrypt
decrypt-encrypt p key nonce plaintext opens l =
    rw
      (
        le→not_ltb (length c) 12 (omega (arith, l, length-append nonce sealed)),
        slice_at {E = NoiseError} c [] nonce sealed 0 12 refl refl (omega (arith, l)),
        slice_at {E = NoiseError} c nonce sealed [] 12 (length c) (rw append-nil refl) (sym l)
            (omega (arith, l, length-append nonce sealed)),
        opens,
      )
      refl
  where
    sealed : Bytes
    sealed = p.seal key nonce plaintext

    c : Bytes
    c = nonce ++ sealed

-- Whatever Decrypt accepts is what Encrypt gives for the returned plaintext, under the same key and the
-- nonce in front, where the AEAD opens nothing that it did not seal.
pub decrypt-IsEncrypted :
    (p : Primitives) (key ciphertext plaintext : Bytes)
    → ((k n c m : Bytes) → p.open_sealed k n c ≡ some m → c ≡ p.seal k n m)
    → decrypt p key ciphertext ≡ ok plaintext
    → (nonce : Bytes) × (length nonce ≡ 12) × (encrypt p key (some nonce) plaintext ≡ ok ciphertext)
unfolding encrypt decrypt
decrypt-IsEncrypted p key ciphertext plaintext only e =
    elim (Bool-cases (ltb (length ciphertext) 12)) [
      | inl short ↦ cc (rw short at e)
      | inr long ↦
          let nonce = take 12 ciphertext in
          let sealed = drop 12 ciphertext in
          let parts : ciphertext ≡ nonce ++ sealed = sym (take-append-drop 12 ciphertext) in
          let l : length nonce ≡ 12 = take-length 12 ciphertext (ground (arith, long)) in
          let at_nonce =
            slice_at {E = NoiseError} ciphertext [] nonce sealed 0 12 parts refl
              (omega (arith, l)) in
          let at_sealed =
            slice_at {E = NoiseError} ciphertext nonce sealed [] 12 (length ciphertext)
              (parts ∙ rw append-nil refl) (sym l)
              (omega (arith, l, ap length parts, length-append nonce sealed)) in
          let opened : p.open_sealed key nonce sealed ≡ some plaintext =
            opened_of (p.open_sealed key nonce sealed) (rw (long, at_nonce, at_sealed) at e) in
          (
            nonce,
            l,
            ap (λ (c : Bytes). ok (nonce ++ c)) (sym (only key nonce sealed plaintext opened))
                ∙ ap ok (sym parts),
          )
    ]
  where
    opened_of : (o : Option Bytes) → or_fail o open_failed ≡ ok plaintext → o ≡ some plaintext
    opened_of none e = cc
    opened_of (some m) e = cc
