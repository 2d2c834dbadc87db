-- ===== src/Chain/Once.antt =====
-- The roots and the serials of whole histories: `byRoot` and `spent` in core/chain/chain.go.
use bitbit.Base.{
  ℕ, ◌≡◌, refl, ap, ◌∙◌, subst, false, true, ◌||◌, Option, none, some, List, [], ◌∷◌, ◌++◌, map,
  mem, mem-append, All, Distinct, arith, Bool-cases, ◌⊎◌, inl, inr,
}
use bitbit.Base.Int.{pos, ltb_ℤ}
use bitbit.Base.Bytes.{Bytes, bytes_equal, mem_bytes, bytes_equal_refl, bytes_equal_sound}
use bitbit.Base.Maps.{lookup, lookup-insert, is_some}
use bitbit.Chain.Types.{Block, body, Entry, PublishToken, Crypto, ok}
use bitbit.Chain.State.{Chain}
use bitbit.Chain.Apply.{
  apply, apply_entry, apply_entries, apply_revocations, apply_unrevocations, push_block,
}
use bitbit.Chain.Rules.{append}
use bitbit.Chain.Fork.{append_all, blank}
use bitbit.Chain.Frame.{apply-blank}
use bitbit.Chain.Inversion.{>>=-eq-ok, append-ok, commit-ok}
use bitbit.Chain.Takedown.{apply-Keeps}
use bitbit.Chain.Fresh.{
  IsFresh, IsPaid, with_serial, serials_of, DistinctBytes, entries-IsFresh, entries-IsPaid,
}

-- The entries of some blocks, in their order.
abbrev pub entries_of : List Block → List Entry
entries_of [] = []
entries_of (b ∷ bs) = (body b).entries ++ entries_of bs

-- None of the roots is on the chain.
abbrev pub Unpublished : Chain → List ℕ → Type 0
Unpublished c rs = (r : ℕ) → mem r rs ≡ true → is_some (lookup r c.by_root) ≡ false

-- None of the serials is spent on the chain.
abbrev pub Unspent : Chain → List Bytes → Type 0
Unspent c ss = (s : Bytes) → mem_bytes s ss ≡ true → mem_bytes s c.spent ≡ false

-- Each entry of each block had a token that verified when the block was appended.
abbrev pub AllPaid : Crypto → Chain → List Block → Type 0
AllPaid cr c [] = Unit
AllPaid cr c (b ∷ bs) = All (IsPaid cr c []) (body b).entries × AllPaid cr (apply cr b c) bs

published-entries :
    (es : List Entry) (r : ℕ) (c : Chain)
    → is_some (lookup r (apply_entries es c).by_root)
      ≡ (mem r (map Entry.root es) || is_some (lookup r c.by_root))
unfolding apply_entries apply_entry mem
published-entries [] r c = refl
published-entries (e ∷ es) r c =
    ground (arith, published-entries es r (apply_entry e c), lookup-insert e.root r e c.by_root)

spent-entries :
    (es : List Entry) (s : Bytes) (c : Chain)
    → mem_bytes s (apply_entries es c).spent ≡ (mem_bytes s (serials_of es) || mem_bytes s c.spent)
unfolding apply_entries apply_entry mem_bytes
spent-entries [] s c = refl
spent-entries (e ∷ es) s c =
    spent-entries es s (apply_entry e c) ∙ spent-entry (serials_of es) s c e e.token refl
  where
    spent-entry :
        (ss : List Bytes) (s : Bytes) (c : Chain) (e : Entry) (o : Option PublishToken)
        → e.token ≡ o
        → (mem_bytes s ss || mem_bytes s (apply_entry e c).spent)
          ≡ (mem_bytes s (with_serial e.token ss) || mem_bytes s c.spent)
    spent-entry ss s c e none h = rw h refl
    spent-entry ss s c e (some t) h = rw h (ground arith)

Distinct-append :
    (xs ys : List ℕ)
    → Distinct xs
    → Distinct ys
    → ((r : ℕ) → mem r ys ≡ true → mem r xs ≡ false)
    → Distinct (xs ++ ys)
unfolding mem
Distinct-append [] ys d e apart = e
Distinct-append (x ∷ xs) ys d e apart =
    let new : mem x ys ≡ false = elim (Bool-cases (mem x ys)) [
      | inl h ↦ let clash = apart x h in absurd (ground arith)
      | inr h ↦ h
    ] in
    (
      ground (arith, d.0, new, mem-append x xs ys),
      Distinct-append xs ys d.1 e (λ r h. let free = apart r h in ground arith),
    )

mem_bytes-append :
    (s : Bytes) (xs ys : List Bytes) → mem_bytes s (xs ++ ys) ≡ (mem_bytes s xs || mem_bytes s ys)
unfolding mem_bytes
mem_bytes-append s [] ys = refl
mem_bytes-append s (x ∷ xs) ys = ground (arith, mem_bytes-append s xs ys)

DistinctBytes-append :
    (xs ys : List Bytes)
    → DistinctBytes xs
    → DistinctBytes ys
    → ((s : Bytes) → mem_bytes s ys ≡ true → mem_bytes s xs ≡ false)
    → DistinctBytes (xs ++ ys)
unfolding mem_bytes
DistinctBytes-append [] ys d e apart = e
DistinctBytes-append (x ∷ xs) ys d e apart =
    let new : mem_bytes x ys ≡ false = elim (Bool-cases (mem_bytes x ys)) [
      | inl h ↦ let clash = apart x h in absurd (ground (arith, bytes_equal_refl x))
      | inr h ↦ h
    ] in
    (
      ground (arith, d.0, new, mem_bytes-append x xs ys),
      DistinctBytes-append xs ys d.1 e (λ r h. let free = apart r h in ground arith),
    )

roots-append :
    (es fs : List Entry) → map Entry.root (es ++ fs) ≡ map Entry.root es ++ map Entry.root fs
roots-append [] fs = refl
roots-append (e ∷ es) fs = ap (λ z. e.root ∷ z) (roots-append es fs)

with_serial-append :
    (o : Option PublishToken) (xs ys : List Bytes)
    → with_serial o (xs ++ ys) ≡ with_serial o xs ++ ys
with_serial-append none xs ys = refl
with_serial-append (some t) xs ys = refl

serials-append : (es fs : List Entry) → serials_of (es ++ fs) ≡ serials_of es ++ serials_of fs
serials-append [] fs = refl
serials-append (e ∷ es) fs =
    ap (λ z. with_serial e.token z) (serials-append es fs)
    ∙ with_serial-append e.token (serials_of es) (serials_of fs)

fresh-Unpublished :
    (c : Chain) (es : List Entry) → All (IsFresh c []) es → Unpublished c (map Entry.root es)
unfolding mem
fresh-Unpublished c [] h r m = absurd (cc)
fresh-Unpublished c (e ∷ es) h r m =
    let later = fresh-Unpublished c es h.1 r in ground (arith, h.0.unpublished)

paid-serials :
    (ss : List Bytes) (s : Bytes) (t : PublishToken) (o : Option PublishToken)
    → o ≡ some t
    → mem_bytes s (with_serial o ss) ≡ true
    → (s ≡ t.serial) ⊎ (mem_bytes s ss ≡ true)
unfolding mem_bytes
paid-serials ss s t o h m =
    let m' : mem_bytes s (t.serial ∷ ss) ≡ true = rw h at m in
    elim (Bool-cases (bytes_equal s t.serial)) [
      | inl e ↦ inl (bytes_equal_sound s t.serial e)
      | inr e ↦ inr (ground arith)
    ]

paid-Unspent :
    (cr : Crypto) (c : Chain) (es : List Entry)
    → All (IsPaid cr c []) es
    → Unspent c (serials_of es)
unfolding mem_bytes
paid-Unspent cr c [] h s m = absurd (cc)
paid-Unspent cr c (e ∷ es) h s m =
    elim (paid-serials (serials_of es) s h.0.token e.token h.0.carried m) [
      | inl same ↦ ap (λ z. mem_bytes z c.spent) same ∙ h.0.unspent
      | inr later ↦ paid-Unspent cr c es h.1 s later
    ]

module _ (cr : Crypto) where
  revocations-same :
      (h : ℕ) (rs : List ℕ) (c : Chain)
      → ((apply_revocations cr h rs c).by_root ≡ c.by_root)
        × ((apply_revocations cr h rs c).spent ≡ c.spent)
  unfolding apply_revocations
  revocations-same h [] c = (refl, refl)
  revocations-same h (r ∷ rs) c = revocations-same h rs _

  unrevocations-same :
      (h : ℕ) (rs : List ℕ) (c : Chain)
      → ((apply_unrevocations cr h rs c).by_root ≡ c.by_root)
        × ((apply_unrevocations cr h rs c).spent ≡ c.spent)
  unfolding apply_unrevocations
  unrevocations-same h [] c = (refl, refl)
  unrevocations-same h (r ∷ rs) c = unrevocations-same h rs _

  -- A block leaves the roots and the spent tokens as its entries make them.
  apply-same :
      (b : Block) (c : Chain)
      → ((apply cr b c).by_root ≡ (apply_entries (body b).entries (push_block b c)).by_root)
        × ((apply cr b c).spent ≡ (apply_entries (body b).entries (push_block b c)).spent)
  apply-same b c =
      let x = body b in
      let c₁ = apply_entries x.entries (push_block b c) in
      let kept = apply-Keeps cr b c in
      let (roots, tokens) = revocations-same x.height x.revocations c₁ in
      let (roots', tokens') =
        unrevocations-same x.height x.unrevocations
          (apply_revocations cr x.height x.revocations c₁) in
      (kept.roots ∙ roots' ∙ roots, kept.tokens ∙ tokens' ∙ tokens)

  published :
      (b : Block) (c : Chain) (r : ℕ)
      → is_some (lookup r (apply cr b c).by_root)
        ≡ (mem r (map Entry.root (body b).entries) || is_some (lookup r c.by_root))
  published b c r =
      ap (λ z. is_some (lookup r z)) (apply-same b c).0
      ∙ published-entries (body b).entries r (push_block b c)

  spent :
      (b : Block) (c : Chain) (s : Bytes)
      → mem_bytes s (apply cr b c).spent
        ≡ (mem_bytes s (serials_of (body b).entries) || mem_bytes s c.spent)
  spent b c s =
      ap (λ z. mem_bytes s z) (apply-same b c).1 ∙ spent-entries (body b).entries s (push_block b c)

  same_quorum : (b : Block) (c : Chain) → (apply cr b c).token_quorum ≡ c.token_quorum
  unfolding blank
  same_quorum b c = ap Chain.token_quorum (apply-blank cr b c)

  -- No root is published twice: over any blocks that a replica appends one after the other, no two
  -- entries have the same root, and none has one that the replica had before.
  pub published_once :
      (bs : List Block) (c t : Chain)
      → append_all cr c bs ≡ ok t
      → Distinct (map Entry.root (entries_of bs)) × Unpublished c (map Entry.root (entries_of bs))
  unfolding append_all mem
  published_once [] c t h = (tt, λ r m. absurd (cc))
  published_once (b ∷ bs) c t h =
      let (d, first, rest) = >>=-eq-ok (append cr c b) (λ z. append_all cr z bs) h in
      let (committed, e) = append-ok cr c b first in
      let es = (body b).entries in
      let (fresh, distinct) =
        entries-IsFresh cr c [] [] es (commit-ok cr c b committed).proposal.entries in
      let (later, new) = published_once bs d t rest in
      let known = λ (r : ℕ). ap (λ z. is_some (lookup r (Chain.by_root z))) e ∙ published b c r in
      rw (roots-append es (entries_of bs)) (
        Distinct-append (map Entry.root es) (map Entry.root (entries_of bs)) distinct later
            (λ r m. let k = known r in let n = new r m in ground arith),
        λ r m. elim (Bool-cases (mem r (map Entry.root es))) [
          | inl here ↦ fresh-Unpublished c es fresh r here
          | inr gone ↦
              let there : mem r (map Entry.root (entries_of bs)) ≡ true =
                ground (arith, mem-append r (map Entry.root es) (map Entry.root (entries_of bs))) in
              let k = known r in let n = new r there in ground arith
        ],
      )

  -- No token is spent twice: where publish tokens are required, over any blocks that a replica
  -- appends one after the other, each entry carries a token that verifies when its block is
  -- appended, no two entries carry the same serial, and none carries one that was spent before.
  pub paid_once :
      (bs : List Block) (c t : Chain)
      → ltb_ℤ (pos 0) c.token_quorum ≡ true
      → append_all cr c bs ≡ ok t
      → AllPaid cr c bs
        × DistinctBytes (serials_of (entries_of bs))
        × Unspent c (serials_of (entries_of bs))
  unfolding append_all mem_bytes
  paid_once [] c t on h = (tt, tt, λ s m. absurd (cc))
  paid_once (b ∷ bs) c t on h =
      let (d, first, rest) = >>=-eq-ok (append cr c b) (λ z. append_all cr z bs) h in
      let (committed, e) = append-ok cr c b first in
      let es = (body b).entries in
      let (paid, distinct) =
        entries-IsPaid cr c [] [] es on (commit-ok cr c b committed).proposal.entries in
      let still : ltb_ℤ (pos 0) (apply cr b c).token_quorum ≡ true = rw (same_quorum b c) on in
      let (all_paid, later, new) =
        paid_once bs (apply cr b c) t still (subst (λ z. append_all cr z bs ≡ ok t) e rest) in
      rw (serials-append es (entries_of bs)) (
        (paid, all_paid),
        DistinctBytes-append (serials_of es) (serials_of (entries_of bs)) distinct later
            (λ s m. let k = spent b c s in let n = new s m in ground arith),
        λ s m. elim (Bool-cases (mem_bytes s (serials_of es))) [
          | inl here ↦ paid-Unspent cr c es paid s here
          | inr gone ↦
              let there : mem_bytes s (serials_of (entries_of bs)) ≡ true =
                ground (arith, mem_bytes-append s (serials_of es) (serials_of (entries_of bs))) in
              let k = spent b c s in let n = new s there in ground arith
        ],
      )
