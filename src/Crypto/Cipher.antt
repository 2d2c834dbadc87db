-- ===== src/Crypto/Cipher.antt =====
-- Chunk encryption and sealed boxes: core/crypto/crypto.go. AES, GCM, HKDF and SHA-256 are parameters;
-- none is an error.
use bitbit.Base.{ℕ, Option, none, some, ◌++◌, not, if◌then◌else◌}
use bitbit.Base.Bytes.{Bytes, ascii, be_bytes, bytes_equal}

abbrev pub key_size : ℕ
key_size = 32

abbrev pub nonce_size : ℕ
nonce_size = 12

abbrev pub convergent_aad : Bytes
convergent_aad = ascii "github.com/nerolabs/silt/convergent/v1"

abbrev pub private_aad : Bytes
private_aad = ascii "github.com/nerolabs/silt/private/v1"

-- Go's cipher.AEAD: the nonce, the text and the additional data.
pub record Aead : Type 0 where
  pub aead_seal : Bytes → Bytes → Bytes → Bytes
  pub aead_open : Bytes → Bytes → Bytes → Option Bytes

-- The standard library: SHA-256, HKDF-SHA-256 without salt, AES as what a key makes of a block, GCM.
pub record Primitives : Type 0 where
  pub sha256 : Bytes → Bytes
  pub hkdf_key : Bytes → Bytes → ℕ → Option Bytes
  pub aes_cipher : Bytes → Option (Bytes → Bytes)
  pub gcm_of : (Bytes → Bytes) → Option Aead

-- The nonce of a chunk: its index in the last eight bytes.
unfoldable pub private_nonce : ℕ → Bytes
private_nonce index = be_bytes 4 0 ++ be_bytes 8 index

module _ (p : Primitives) where
  unfoldable pub new_gcm : Bytes → Option Aead
  new_gcm key = elim (p.aes_cipher key) [ none ↦ none | some block ↦ p.gcm_of block ]

  -- The cipher and the nonce that HKDF derives from a secret under two labels.
  unfoldable pub derived_cipher : Bytes → Bytes → Bytes → Option (Aead × Bytes)
  derived_cipher secret key_label nonce_label = elim (p.hkdf_key secret key_label key_size) [
    | none ↦ none
    | some key ↦ elim (p.hkdf_key secret nonce_label nonce_size) [
      | none ↦ none
      | some nonce ↦ elim (new_gcm key) [ none ↦ none | some gcm ↦ some (gcm, nonce) ]
    ]
  ]

  abbrev pub box_cipher : Bytes → Bytes → Option (Aead × Bytes)
  box_cipher key domain = derived_cipher key (domain ++ ascii "/key") (domain ++ ascii "/nonce")

  unfoldable pub seal_box : Bytes → Bytes → Bytes → Option Bytes
  seal_box key domain plain = elim (box_cipher key domain) [
    | none ↦ none
    | some (gcm, nonce) ↦ some (gcm.aead_seal nonce plain domain)
  ]

  unfoldable pub open_box : Bytes → Bytes → Bytes → Option Bytes
  open_box key domain sealed = elim (box_cipher key domain) [
    | none ↦ none
    | some (gcm, nonce) ↦ gcm.aead_open nonce sealed domain
  ]

  abbrev pub convergent_cipher : Bytes → Option (Aead × Bytes)
  convergent_cipher secret =
      derived_cipher secret (ascii "github.com/nerolabs/silt/convergent/v1/key")
        (ascii "github.com/nerolabs/silt/convergent/v1/nonce")

  unfoldable pub convergent_seal : Bytes → Bytes → Option Bytes
  convergent_seal plain secret = elim (convergent_cipher secret) [
    | none ↦ none
    | some (gcm, nonce) ↦ some (gcm.aead_seal nonce plain convergent_aad)
  ]

  -- The ciphertext and the secret, the digest of the plaintext.
  unfoldable pub convergent_encrypt : Bytes → Option (Bytes × Bytes)
  convergent_encrypt plain = elim (convergent_seal plain (p.sha256 plain)) [
    | none ↦ none
    | some sealed ↦ some (sealed, p.sha256 plain)
  ]

  unfoldable pub convergent_decrypt : Bytes → Bytes → Option Bytes
  convergent_decrypt sealed secret = elim (convergent_cipher secret) [
    | none ↦ none
    | some (gcm, nonce) ↦ elim (gcm.aead_open nonce sealed convergent_aad) [
      | none ↦ none
      | some plain ↦ if not (bytes_equal (p.sha256 plain) secret) then none else some plain
    ]
  ]

  unfoldable pub private_encrypt : Bytes → ℕ → Bytes → Option Bytes
  private_encrypt key index plain = elim (new_gcm key) [
    | none ↦ none
    | some gcm ↦ some (gcm.aead_seal (private_nonce index) plain private_aad)
  ]

  unfoldable pub private_decrypt : Bytes → ℕ → Bytes → Option Bytes
  private_decrypt key index sealed = elim (new_gcm key) [
    | none ↦ none
    | some gcm ↦ gcm.aead_open (private_nonce index) sealed private_aad
  ]
