-- ===== src/Crypto/RoundTrip.antt =====
-- Encrypting and decrypting: core/crypto/crypto.go.
use bitbit.Base.{ℕ, ◌≡◌, refl, sym, ap, ◌∙◌, none, some, Option-cases, inl, inr}
use bitbit.Base.Bytes.{Bytes, bytes_equal_refl}
use bitbit.Crypto.Cipher.{
  Primitives, Aead, key_size, nonce_size, convergent_aad, private_aad, new_gcm, derived_cipher,
  box_cipher, seal_box, open_box, convergent_cipher, convergent_seal, convergent_encrypt,
  convergent_decrypt, private_nonce, private_encrypt, private_decrypt,
}

-- GCM opens what it has sealed, under the same nonce and additional data.
unfoldable pub IsAuthenticated : Primitives → Type 0
IsAuthenticated p =
    (block : Bytes → Bytes) (gcm : Aead)
    → p.gcm_of block ≡ some gcm
    → (nonce plain extra : Bytes)
    → gcm.aead_open nonce (gcm.aead_seal nonce plain extra) extra ≡ some plain

module _ (p : Primitives) (law : IsAuthenticated p) where
  gcm_opens :
      (key : Bytes) (gcm : Aead)
      → new_gcm p key ≡ some gcm
      → (nonce plain extra : Bytes)
      → gcm.aead_open nonce (gcm.aead_seal nonce plain extra) extra ≡ some plain
  unfolding new_gcm IsAuthenticated
  gcm_opens key gcm h = elim (Option-cases (p.aes_cipher key)) [
    | inl e ↦ let no : none ≡ some gcm = sym (rw (new_gcm, e) refl) ∙ h in absurd (cc)
    | inr (block, e) ↦
        let made : p.gcm_of block ≡ some gcm = sym (rw (new_gcm, e) refl) ∙ h in law block gcm made
  ]

  derived_opens :
      (secret a b : Bytes) (gcm : Aead) (nonce : Bytes)
      → derived_cipher p secret a b ≡ some (gcm, nonce)
      → (plain extra : Bytes)
      → gcm.aead_open nonce (gcm.aead_seal nonce plain extra) extra ≡ some plain
  unfolding derived_cipher
  derived_opens secret a b gcm nonce h = elim (Option-cases (p.hkdf_key secret a key_size)) [
    | inl e ↦
        let no : none ≡ some (gcm, nonce) = sym (rw (derived_cipher, e) refl) ∙ h in absurd (cc)
    | inr (key, e) ↦ elim (Option-cases (p.hkdf_key secret b nonce_size)) [
      | inl f ↦
          let no : none ≡ some (gcm, nonce) = sym (rw (derived_cipher, e, f) refl) ∙ h in
          absurd (cc)
      | inr (drawn, f) ↦ elim (Option-cases (new_gcm p key)) [
        | inl g ↦
            let no : none ≡ some (gcm, nonce) = sym (rw (derived_cipher, e, f, g) refl) ∙ h in
            absurd (cc)
        | inr (made, g) ↦
            let same : some (made, drawn) ≡ some (gcm, nonce) =
              sym (rw (derived_cipher, e, f, g) refl) ∙ h in
            let is_made : made ≡ gcm = cc in gcm_opens key gcm (g ∙ ap (λ z. some z) is_made) nonce
      ]
    ]
  ]

  -- A box opens under the key and the domain that sealed it.
  pub open_box-seal_box :
      (key domain plain sealed : Bytes)
      → seal_box p key domain plain ≡ some sealed
      → open_box p key domain sealed ≡ some plain
  unfolding seal_box open_box
  open_box-seal_box key domain plain sealed h = elim (Option-cases (box_cipher p key domain)) [
    | inl e ↦ let no : none ≡ some sealed = sym (rw (seal_box, e) refl) ∙ h in absurd (cc)
    | inr ((gcm, nonce), e) ↦
        let same : some (gcm.aead_seal nonce plain domain) ≡ some sealed =
          sym (rw (seal_box, e) refl) ∙ h in
        let sealed_is : gcm.aead_seal nonce plain domain ≡ sealed = cc in
        rw (open_box, e, sym sealed_is) (derived_opens key _ _ gcm nonce e plain domain)
  ]

  private_round_trip :
      (key : Bytes) (index : ℕ) (plain sealed : Bytes)
      → private_encrypt p key index plain ≡ some sealed
      → private_decrypt p key index sealed ≡ some plain
  unfolding private_encrypt private_decrypt
  private_round_trip key index plain sealed h = elim (Option-cases (new_gcm p key)) [
    | inl e ↦ let no : none ≡ some sealed = sym (rw (private_encrypt, e) refl) ∙ h in absurd (cc)
    | inr (gcm, e) ↦
        let nonce = private_nonce index in
        let same : some (gcm.aead_seal nonce plain private_aad) ≡ some sealed =
          sym (rw (private_encrypt, e) refl) ∙ h in
        let sealed_is : gcm.aead_seal nonce plain private_aad ≡ sealed = cc in
        rw (private_decrypt, e, sym sealed_is) (gcm_opens key gcm e nonce plain private_aad)
  ]

  convergent_opens :
      (plain secret sealed : Bytes)
      → p.sha256 plain ≡ secret
      → convergent_seal p plain secret ≡ some sealed
      → convergent_decrypt p sealed secret ≡ some plain
  unfolding convergent_seal convergent_decrypt
  convergent_opens plain secret sealed digest h = elim (Option-cases (convergent_cipher p secret)) [
    | inl e ↦ let no : none ≡ some sealed = sym (rw (convergent_seal, e) refl) ∙ h in absurd (cc)
    | inr ((gcm, nonce), e) ↦
        let same : some (gcm.aead_seal nonce plain convergent_aad) ≡ some sealed =
          sym (rw (convergent_seal, e) refl) ∙ h in
        let sealed_is : gcm.aead_seal nonce plain convergent_aad ≡ sealed = cc in
        let opens = derived_opens secret _ _ gcm nonce e plain convergent_aad in
        rw (convergent_decrypt, e, sym sealed_is, opens, digest, bytes_equal_refl secret) refl
  ]

  -- A chunk that `ConvergentEncrypt` encrypts, `ConvergentDecrypt` gives back under its secret.
  pub convergent_round_trip :
      (plain sealed secret : Bytes)
      → convergent_encrypt p plain ≡ some (sealed, secret)
      → convergent_decrypt p sealed secret ≡ some plain
  unfolding convergent_encrypt
  convergent_round_trip plain sealed secret h =
      elim (Option-cases (convergent_seal p plain (p.sha256 plain))) [
        | inl e ↦
            let no : none ≡ some (sealed, secret) = sym (rw (convergent_encrypt, e) refl) ∙ h in
            absurd (cc)
        | inr (made, e) ↦
            let same : some (made, p.sha256 plain) ≡ some (sealed, secret) =
              sym (rw (convergent_encrypt, e) refl) ∙ h in
            let is_made : made ≡ sealed = cc in
            let digest : p.sha256 plain ≡ secret = cc in
            let sealing =
              ap (λ z. convergent_seal p plain z) (sym digest) ∙ e ∙ ap (λ z. some z) is_made in
            convergent_opens plain secret sealed digest sealing
      ]
