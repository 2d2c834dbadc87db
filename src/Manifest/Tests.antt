-- ===== src/Manifest/Tests.antt =====
-- A file of three chunks on which the theorems about core/manifest/merkle.go apply.
use bitbit.Base.{
  ℕ, ◌+◌, ◌*◌, ◌%◌, ◌^◌, ◌<◌, ◌≡◌, ◌⊎◌, refl, true, some, List, [], ◌∷◌, get_elem?, All, drop,
  arith,
}
use bitbit.Base.{subst, Option, none, length, ◌++◌}
use bitbit.Base.Int.{pos}
use bitbit.Base.Bytes.{Bytes, ascii, be_bytes, bytes_equal}
use bitbit.Erasure.Stripe.{stripes, parity_shards}
use bitbit.Erasure.Stripe
use bitbit.Manifest.Document.{Manifest, Codec, seal, open_full, validate, mode_ok, all_long}
use bitbit.Crypto.Cipher.{Primitives, Aead, seal_box, derived_cipher, new_gcm}
use bitbit.Crypto.RoundTrip.{IsAuthenticated}
use bitbit.Manifest.Sealing.{IsCodec, open-seal}
use native.Mathlib.Nat.{mod-lt}
use bitbit.Translog
use bitbit.Manifest.Merkle.{
  Proof, merkle_root, audit_path, prove, verify_proof, root_from_path, leaf_hash, node_hash,
}
use bitbit.Manifest.Merkle
use bitbit.Manifest.Agreement.{trees_agree}
use bitbit.Manifest.Proofs.{prove_round_trip}
use bitbit.Manifest.Collision.{Collision, IsHash}
use bitbit.Manifest.Binding.{proof_binding}

-- A digest to tell trees apart by, of 32 bytes.
unfoldable toy_sum : Bytes → ℕ
toy_sum [] = 1
toy_sum (x ∷ xs) = x + 257 * toy_sum xs

unfoldable toy_sha : Bytes → ℕ
toy_sha xs = toy_sum xs % 2 ^ 256

toy_sha-IsHash : (xs : Bytes) → IsHash (toy_sha xs)
unfolding toy_sha
toy_sha-IsHash xs = mod-lt (toy_sum xs) (omega arith)

abbrev leaves : List ℕ
leaves = 5 ∷ 6 ∷ 7 ∷ []

abbrev proof_of_6 : Proof
proof_of_6 = record { index = 1; total = 3; path = audit_path toy_sha 1 leaves }

trees_agree_example :
    (merkle_root toy_sha leaves ≡ Translog.root toy_sha leaves)
    × ((m : ℕ) → m < 3 → audit_path toy_sha m leaves ≡ Translog.path toy_sha m leaves)
trees_agree_example = trees_agree toy_sha leaves

made : prove toy_sha leaves 1 ≡ some proof_of_6
unfolding prove
made = refl

prove_round_trip_example : verify_proof toy_sha (merkle_root toy_sha leaves) 6 proof_of_6 ≡ true
prove_round_trip_example = prove_round_trip toy_sha leaves 1 6 proof_of_6 made refl

path_hashes : All IsHash (audit_path toy_sha 1 leaves)
unfolding audit_path Merkle.audit_path_from Merkle.merkle_tree_hash Merkle.tree_hash_from
    Merkle.leaf_hash Merkle.largest_power_of_two_below Merkle.power_from drop
path_hashes = (toy_sha-IsHash _, (toy_sha-IsHash _, tt))

proof_binding_example :
    (get_elem? leaves 1 ≡ some 6) ⊎ Collision toy_sha leaves 6 1 3 (audit_path toy_sha 1 leaves)
proof_binding_example =
    proof_binding toy_sha toy_sha-IsHash leaves 6 proof_of_6
      (omega arith, (omega arith, (omega arith, tt))) path_hashes (omega arith) refl
      prove_round_trip_example

-- A private file of two chunks, one of them parity, and a codec for it alone.
abbrev hash_of : ℕ → Bytes
hash_of n = be_bytes 32 n

abbrev document : Manifest
document = record {
  version = pos 1;
  mode = ascii "private";
  chunk_size = pos 1024;
  file_size = pos 900;
  chunks = hash_of 5 ∷ [];
  chunk_secrets = [];
  file_key = hash_of 9;
  k = pos 1;
  n = pos 2;
  manifest_key = [];
  parity = hash_of 6 ∷ [];
}

unfoldable tail_of : Bytes → Option Bytes
tail_of [] = none
tail_of (x ∷ xs) = some xs

-- A cipher that only puts the length of the additional data before the text.
abbrev toy_aead : Aead
toy_aead = record {
  aead_seal = λ nonce plain extra. length extra ∷ plain;
  aead_open = λ nonce sealed extra. tail_of sealed;
}

abbrev primitives : Primitives
primitives = record {
  sha256 = λ b. be_bytes 32 (toy_sha b);
  hkdf_key = λ secret label size. some (be_bytes size (toy_sha (secret ++ label)));
  aes_cipher = λ key. some (λ block. block);
  gcm_of = λ block. some toy_aead;
}

abbrev codec : Codec
codec = record {
  primitives = primitives;
  encode_manifest = λ m. m.mode;
  decode_manifest = λ b. some document;
  encode_layout = λ l. l.box;
  decode_layout = λ b. some (record {
    version = pos 1;
    chunk_size = pos 1024;
    k = pos 1;
    n = pos 2;
    chunks = hash_of 5 ∷ [];
    parity = hash_of 6 ∷ [];
    box = b;
  });
  encode_secrets = λ s. s.file_key;
  decode_secrets = λ b.
      some
        (record { mode = ascii "private"; file_size = pos 900; chunk_secrets = []; file_key = b });
}

toy_gcm : (gcm : Aead) → some toy_aead ≡ some gcm → toy_aead ≡ gcm
toy_gcm gcm h = cc

primitives-IsAuthenticated : IsAuthenticated primitives
unfolding IsAuthenticated tail_of
primitives-IsAuthenticated block gcm h nonce plain extra =
    subst (λ z. z.aead_open nonce (z.aead_seal nonce plain extra) extra ≡ some plain)
      (toy_gcm gcm h) refl

codec-IsCodec : IsCodec codec document
codec-IsCodec = record {
  layouts = λ box few few_parity. refl;
  secrets = λ few. refl;
  authentic = primitives-IsAuthenticated;
}

abbrev sealed_document : Bytes
sealed_document = 23 ∷ 24 ∷ hash_of 9

document_sealed : seal codec document (hash_of 1) (hash_of 2) ≡ some sealed_document
unfolding seal seal_box derived_cipher new_gcm validate mode_ok all_long be_bytes bytes_equal
    Stripe.validate stripes parity_shards
document_sealed = refl

open-seal_example : open_full codec sealed_document (hash_of 1) (hash_of 2) ≡ some document
open-seal_example =
    open-seal codec document (hash_of 1) (hash_of 2) sealed_document codec-IsCodec (omega arith)
      document_sealed
