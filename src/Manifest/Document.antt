-- ===== src/Manifest/Document.antt =====
-- The manifest of a file and its two sealed layers: core/manifest/manifest.go and sealed.go. The CBOR
-- library and the primitives of the encryption are parameters.
use bitbit.Base.{
  ℕ, ◌*◌, Bool, true, false, not, ◌&&◌, ◌||◌, Option, none, some, List, [], ◌∷◌, ◌++◌, length, map,
  take, ltb, ◌==◌, if◌then◌else◌,
}
use bitbit.Base.Int.{ℤ, pos, ltb_ℤ, leb_ℤ, eq_ℤ}
use bitbit.Base.Bytes.{Bytes, ascii, bytes_equal, be_bytes, be_value}
use bitbit.Erasure.Stripe.{Params, stripes, parity_shards}
use bitbit.Erasure.Stripe
use bitbit.Manifest.Merkle.{merkle_root}
use bitbit.Crypto.Cipher.{Primitives, seal_box, open_box}

abbrev pub version : ℤ
version = pos 1

abbrev pub max_chunk_size : ℤ
max_chunk_size = pos 134217728

abbrev pub max_chunks : ℕ
max_chunks = 1048576

pub record Manifest : Type 0 where
  pub version : ℤ
  pub mode : Bytes
  pub chunk_size : ℤ
  pub file_size : ℤ
  pub chunks : List Bytes
  pub chunk_secrets : List Bytes
  pub file_key : Bytes
  pub k : ℤ
  pub n : ℤ
  pub manifest_key : Bytes
  pub parity : List Bytes

pub record Layout : Type 0 where
  pub version : ℤ
  pub chunk_size : ℤ
  pub k : ℤ
  pub n : ℤ
  pub chunks : List Bytes
  pub parity : List Bytes
  pub box : Bytes

pub record SecretsPart : Type 0 where
  pub mode : Bytes
  pub file_size : ℤ
  pub chunk_secrets : List Bytes
  pub file_key : Bytes

-- The loops that check the length of each element.
unfoldable pub all_long : ℕ → List Bytes → Bool
all_long size [] = true
all_long size (b ∷ bs) = if not (length b == size) then false else all_long size bs

abbrev pub convergent : Bytes
convergent = ascii "convergent"

abbrev pub private_mode : Bytes
private_mode = ascii "private"

-- The switch on the mode; any other mode is refused.
unfoldable pub mode_ok : Manifest → Bool
mode_ok m =
    if bytes_equal m.mode convergent
    then (length m.chunk_secrets == length m.chunks)
      && (all_long 32 m.chunk_secrets && (length m.file_key == 0))
    else if bytes_equal m.mode private_mode
    then (length m.file_key == 32) && (length m.chunk_secrets == 0)
    else false

abbrev pub coded_ok : ℤ → ℤ → Manifest → Bool
coded_ok (pos k) (pos n) m =
    let p : Params = record { k = k; n = n } in
    if not (Stripe.validate p)
    then false
    else let want =
        if ltb 0 (length m.chunks) then stripes p (length m.chunks) * parity_shards p else 0 in
      (length m.parity == want) && all_long 32 m.parity
coded_ok k n m = false

-- Whether there is no error.
unfoldable pub validate : Manifest → Bool
validate m =
    if not (eq_ℤ m.version version)
    then false
    else if leb_ℤ m.chunk_size (pos 0)
    then false
    else if ltb_ℤ max_chunk_size m.chunk_size
    then false
    else if ltb max_chunks (length m.chunks)
    then false
    else if ltb_ℤ m.file_size (pos 0)
    then false
    else if not (all_long 32 m.chunks)
    then false
    else if not (mode_ok m)
    then false
    else if not (length m.manifest_key == 0)
    then false
    else if eq_ℤ m.k (pos 0)
    then eq_ℤ m.n (pos 0) && (length m.parity == 0)
    else coded_ok m.k m.n m

-- `copy` into an array of 32 bytes: a longer slice is cut, and a shorter one has zeros after it.
unfoldable pub hash_of : Bytes → ℕ
hash_of raw = be_value (take 32 (raw ++ be_bytes 32 0))

unfoldable pub to_hashes : List Bytes → List ℕ
to_hashes raw = map hash_of raw

unfoldable pub chunk_ids : Manifest → List ℕ
chunk_ids m = to_hashes m.chunks

unfoldable pub parity_ids : Manifest → List ℕ
parity_ids m = to_hashes m.parity

unfoldable pub leaves : Manifest → List ℕ
leaves m = chunk_ids m ++ parity_ids m

unfoldable pub root : (Bytes → ℕ) → Manifest → ℕ
root sha256 m = merkle_root sha256 (leaves m)

abbrev pub layout_domain : Bytes
layout_domain = ascii "silt/manifest/v1/layout"

abbrev pub secrets_domain : Bytes
secrets_domain = ascii "silt/manifest/v1/secrets"

-- The CBOR library on the three types, and what the encryption is built from; none is an error.
pub record Codec : Type 0 where
  pub primitives : Primitives
  pub encode_manifest : Manifest → Bytes
  pub decode_manifest : Bytes → Option Manifest
  pub encode_layout : Layout → Bytes
  pub decode_layout : Bytes → Option Layout
  pub encode_secrets : SecretsPart → Bytes
  pub decode_secrets : Bytes → Option SecretsPart

module _ (c : Codec) where
  unfoldable pub marshal : Manifest → Option Bytes
  marshal m = if not (validate m) then none else some (c.encode_manifest m)

  unfoldable pub unmarshal : Bytes → Option Manifest
  unmarshal b = elim (c.decode_manifest b) [
    | none ↦ none
    | some m ↦ if not (validate m) then none else some m
  ]

  abbrev pub secrets_of : Manifest → SecretsPart
  secrets_of m = record {
    mode = m.mode;
    file_size = m.file_size;
    chunk_secrets = m.chunk_secrets;
    file_key = m.file_key;
  }

  abbrev pub layout_of : Manifest → Bytes → Layout
  layout_of m box = record {
    version = m.version;
    chunk_size = m.chunk_size;
    k = m.k;
    n = m.n;
    chunks = m.chunks;
    parity = m.parity;
    box = box;
  }

  unfoldable pub seal : Manifest → Bytes → Bytes → Option Bytes
  seal m layout_key content_key =
      if not (validate m)
      then none
      else elim (seal_box c.primitives content_key secrets_domain
          (c.encode_secrets (secrets_of m))) [
            | none ↦ none
            | some box ↦
                seal_box c.primitives layout_key layout_domain (c.encode_layout (layout_of m box))
          ]

  abbrev pub checked_layout : Layout → Option Layout
  checked_layout l =
      if not (eq_ℤ l.version version)
      then none
      else if leb_ℤ l.chunk_size (pos 0) || ltb_ℤ max_chunk_size l.chunk_size
      then none
      else if ltb max_chunks (length l.chunks) || ltb max_chunks (length l.parity)
      then none
      else some l

  unfoldable pub open_layout : Bytes → Bytes → Option Layout
  open_layout blob layout_key = elim (open_box c.primitives layout_key layout_domain blob) [
    | none ↦ none
    | some plain ↦ elim (c.decode_layout plain) [ none ↦ none | some l ↦ checked_layout l ]
  ]

  abbrev pub manifest_of : Layout → SecretsPart → Manifest
  manifest_of l s = record {
    version = l.version;
    mode = s.mode;
    chunk_size = l.chunk_size;
    file_size = s.file_size;
    chunks = l.chunks;
    chunk_secrets = s.chunk_secrets;
    file_key = s.file_key;
    k = l.k;
    n = l.n;
    manifest_key = [];
    parity = l.parity;
  }

  abbrev pub checked_manifest : Manifest → Option Manifest
  checked_manifest m = if not (validate m) then none else some m

  unfoldable pub open_full : Bytes → Bytes → Bytes → Option Manifest
  open_full blob layout_key content_key = elim (open_layout blob layout_key) [
    | none ↦ none
    | some l ↦ elim (open_box c.primitives content_key secrets_domain l.box) [
      | none ↦ none
      | some plain ↦ elim (c.decode_secrets plain) [
        | none ↦ none
        | some s ↦ checked_manifest (manifest_of l s)
      ]
    ]
  ]
