-- ===== src/Manifest/Sealing.antt =====
-- Sealing a manifest and opening it: core/manifest/sealed.go.
use bitbit.Base.{
  ◌≤◌, ◌≡◌, refl, sym, ap, ◌∙◌, Bool, true, false, not, ◌&&◌, ◌||◌, none, some, [], ◌∷◌, length,
  ltb, ◌==◌, if◌then◌else◌, arith, Bool-cases, Option-cases, inl, inr,
}
use bitbit.Base.Int.{pos, ltb_ℤ, leb_ℤ, eq_ℤ}
use bitbit.Base.Bytes.{Bytes}
use bitbit.Crypto.Cipher.{seal_box}
use bitbit.Crypto.RoundTrip.{IsAuthenticated, open_box-seal_box}
use bitbit.Manifest.Document.{
  Manifest, Codec, version, max_chunk_size, max_chunks, mode_ok, coded_ok, all_long, validate,
  layout_domain, secrets_domain, secrets_of, layout_of, manifest_of, seal, open_layout, open_full,
}

-- What the codec and the encryption promise for a manifest: within the decoder's limit on arrays its
-- two parts are read back, and GCM opens what it has sealed.
pub record IsCodec (c : Codec) (m : Manifest) : Type 0 where
  pub layouts :
      (box : Bytes)
      → length m.chunks ≤ max_chunks
      → length m.parity ≤ max_chunks
      → c.decode_layout (c.encode_layout (layout_of c m box)) ≡ some (layout_of c m box)
  pub secrets :
      length m.chunk_secrets ≤ max_chunks
      → c.decode_secrets (c.encode_secrets (secrets_of c m)) ≡ some (secrets_of c m)
  pub authentic : IsAuthenticated c.primitives

-- What a valid manifest is known to be.
record Valid (m : Manifest) : Type 0 where
  is_version : eq_ℤ m.version version ≡ true
  positive : leb_ℤ m.chunk_size (pos 0) ≡ false
  bounded : ltb_ℤ max_chunk_size m.chunk_size ≡ false
  few : length m.chunks ≤ max_chunks
  mode : mode_ok m ≡ true
  no_key : length m.manifest_key ≡ 0

guard :
    (test : Bool) (rest : Bool)
    → (if test then false else rest) ≡ true
    → (test ≡ false) × (rest ≡ true)
guard true rest h = absurd (cc)
guard false rest h = (refl, h)

unnegate : (b : Bool) → not b ≡ false → b ≡ true
unnegate true h = refl
unnegate false h = absurd (cc)

valid : (m : Manifest) → validate m ≡ true → Valid m
unfolding validate
valid m h =
    let r8 =
      if eq_ℤ m.k (pos 0) then eq_ℤ m.n (pos 0) && (length m.parity == 0) else coded_ok m.k m.n m in
    let r7 = if not (length m.manifest_key == 0) then false else r8 in
    let r6 = if not (mode_ok m) then false else r7 in
    let r5 = if not (all_long 32 m.chunks) then false else r6 in
    let r4 = if ltb_ℤ m.file_size (pos 0) then false else r5 in
    let r3 = if ltb max_chunks (length m.chunks) then false else r4 in
    let r2 = if ltb_ℤ max_chunk_size m.chunk_size then false else r3 in
    let r1 = if leb_ℤ m.chunk_size (pos 0) then false else r2 in
    let (a, h1) = guard (not (eq_ℤ m.version version)) r1 h in
    let (b, h2) = guard (leb_ℤ m.chunk_size (pos 0)) r2 h1 in
    let (c, h3) = guard (ltb_ℤ max_chunk_size m.chunk_size) r3 h2 in
    let (d, h4) = guard (ltb max_chunks (length m.chunks)) r4 h3 in
    let (e, h5) = guard (ltb_ℤ m.file_size (pos 0)) r5 h4 in
    let (f, h6) = guard (not (all_long 32 m.chunks)) r6 h5 in
    let (g, h7) = guard (not (mode_ok m)) r7 h6 in
    let (i, h8) = guard (not (length m.manifest_key == 0)) r8 h7 in
    record {
      is_version = unnegate (eq_ℤ m.version version) a;
      positive = b;
      bounded = c;
      few = ground (arith, d);
      mode = unnegate (mode_ok m) g;
      no_key = ground (arith, i);
    }

few_secrets : (m : Manifest) → Valid m → length m.chunk_secrets ≤ max_chunks
unfolding mode_ok
few_secrets m v = ground (arith, v.mode, v.few)

empty-eq : (b : Bytes) → length b ≡ 0 → [] ≡ b
empty-eq [] h = refl
empty-eq (x ∷ b) h = absurd (omega (arith, h))

module _ (c : Codec) where
  -- The manifest that is put together from the two layers of a sealed one.
  same_manifest :
      (m : Manifest) (box : Bytes)
      → length m.manifest_key ≡ 0
      → manifest_of c (layout_of c m box) (secrets_of c m) ≡ m
  same_manifest m box h = ap (λ z. record m { manifest_key = z }) (empty-eq m.manifest_key h)

  sealed_parts :
      (m : Manifest) (layout_key content_key blob : Bytes)
      → validate m ≡ true
      → seal c m layout_key content_key ≡ some blob
      → (box : Bytes) × (seal_box c.primitives content_key secrets_domain
            (c.encode_secrets (secrets_of c m))
          ≡ some box)
        × (seal_box c.primitives layout_key layout_domain (c.encode_layout (layout_of c m box))
            ≡ some blob)
  unfolding seal
  sealed_parts m layout_key content_key blob ok h =
      elim (Option-cases
        (seal_box c.primitives content_key secrets_domain (c.encode_secrets (secrets_of c m)))) [
          | inl e ↦ let no : none ≡ some blob = sym (rw (seal, ok, e) refl) ∙ h in absurd (cc)
          | inr (box, e) ↦ (box, e, sym (rw (seal, ok, e) refl) ∙ h)
        ]

  seal-IsValid :
      (m : Manifest) (layout_key content_key blob : Bytes)
      → seal c m layout_key content_key ≡ some blob
      → validate m ≡ true
  unfolding seal
  seal-IsValid m layout_key content_key blob h = elim (Bool-cases (validate m)) [
    | inl e ↦ e
    | inr e ↦ let no : none ≡ some blob = sym (rw (seal, e) refl) ∙ h in absurd (cc)
  ]

  opened_layout :
      (m : Manifest) (layout_key box blob : Bytes)
      → IsCodec c m
      → Valid m
      → length m.parity ≤ max_chunks
      → seal_box c.primitives layout_key layout_domain (c.encode_layout (layout_of c m box))
        ≡ some blob
      → open_layout c blob layout_key ≡ some (layout_of c m box)
  unfolding open_layout
  opened_layout m layout_key box blob law v parity h =
      let plain =
        open_box-seal_box c.primitives law.authentic layout_key layout_domain
          (c.encode_layout (layout_of c m box)) blob h in
      let read = law.layouts box v.few parity in
      let counts : (ltb max_chunks (length m.chunks) || ltb max_chunks (length m.parity)) ≡ false =
        ground (arith, v.few, parity) in
      rw (open_layout, plain, read, v.is_version, v.positive, v.bounded, counts) refl

  -- Whatever manifest `Seal` seals, `OpenFull` gives back under the same keys, where there are at most
  -- 2 ^ 20 parity shards (the limit that `OpenLayout` sets, and `Seal` does not), the codec reads back
  -- what it writes and GCM opens what it seals.
  pub open-seal :
      (m : Manifest) (layout_key content_key blob : Bytes)
      → IsCodec c m
      → length m.parity ≤ max_chunks
      → seal c m layout_key content_key ≡ some blob
      → open_full c blob layout_key content_key ≡ some m
  unfolding open_full
  open-seal m layout_key content_key blob law parity h =
      let ok = seal-IsValid m layout_key content_key blob h in
      let v = valid m ok in
      let (box, inner, outer) = sealed_parts m layout_key content_key blob ok h in
      let layout = opened_layout m layout_key box blob law v parity outer in
      let plain =
        open_box-seal_box c.primitives law.authentic content_key secrets_domain
          (c.encode_secrets (secrets_of c m)) box inner in
      let read = law.secrets (few_secrets m v) in
      let whole = same_manifest m box v.no_key in
      let again : validate (manifest_of c (layout_of c m box) (secrets_of c m)) ≡ true =
        ap validate whole ∙ ok in
      rw (open_full, layout, plain, read, again) (ap (λ z. some z) whole)
