-- ===== src/Translog/Inclusion.antt =====
-- The verifier of audit paths in core/translog/translog.go, against the paths that the log gives
-- out.
use bitbit.Base.{
  ℕ, zero, suc, ◌+◌, ◌-◌, ◌*◌, ◌/◌, ◌%◌, ◌^◌, ◌<◌, ◌≤◌, ◌≡◌, inl, inr, refl, sym, ap, ◌∙◌, subst,
  Bool, true, false, ◌||◌, Option, none, some, List, [], ◌∷◌, ◌++◌, length, get_elem?, take, ltb,
  leb, ◌==◌, if◌then◌else◌, arith, Bool-cases, ==_refl,
}
use mathlib.Core.List.{append-nil, append_assoc}
use bitbit.Base.{drop}
use bitbit.Base.Bytes.{Bytes}
use bitbit.Translog.{
  split, mth, mth_from, path, path_from, leaf_hash, node_hash, climb, ascend, strip_even,
  verify_inclusion, inclusion_proof, root_at, Log,
}
use bitbit.Translog.Split.{twice_pow, split_largest_power, mth_halves, length-drop}
use bitbit.Translog.Paths.{path_halves}

or_false : (x : Bool) → (x || false) ≡ x
or_false true = refl
or_false false = refl

or_true : (x : Bool) → (x || true) ≡ true
or_true true = refl
or_true false = refl

pow_pos : (j : ℕ) → 0 < 2 ^ j
pow_pos zero = omega arith
pow_pos (suc j) = omega (arith, pow_pos j)

pow_mono : (i j : ℕ) → i ≤ j → 2 ^ i ≤ 2 ^ j
pow_mono i zero h = let e : i ≡ 0 = omega (arith, h) in rw e (omega arith)
pow_mono i (suc j) h = elim (Bool-cases (i == suc j)) [
  | inl e ↦ let same : i ≡ suc j = ground (arith, e) in rw same (omega arith)
  | inr n ↦ omega (arith, pow_mono i j (ground (arith, n, h)))
]

-- Between two powers of two, `split` gives the lower one.
pub split-between : (j n : ℕ) → 2 ^ j < n → n ≤ 2 * 2 ^ j → split n ≡ 2 ^ j
split-between j n lo hi =
    let ((i, e), below, above) = split_largest_power n (omega (arith, pow_pos j)) in
    elim (Bool-cases (i == j)) [
      | inl s ↦ let same : i ≡ j = ground (arith, s) in e ∙ ap (λ z. 2 ^ z) same
      | inr s ↦ elim (Bool-cases (ltb i j)) [
        | inl l ↦
            absurd (omega (arith, e, below, above, pow_mono (suc i) j (ground (arith, l)), lo, hi))
        | inr l ↦
            absurd
              (omega (arith, e, below, above, pow_mono (suc j) i (ground (arith, l, s)), lo, hi))
      ]
    ]

pub length-take_le : {A : Type 0} (k : ℕ) (xs : List A) → k ≤ length xs → length (take k xs) ≡ k
length-take_le zero xs h = refl
length-take_le (suc k) [] h = absurd (omega (arith, h))
length-take_le (suc k) (x ∷ xs) h = omega (arith, length-take_le k xs (omega (arith, h)))

pub get_elem?-take : (k m : ℕ) (xs : List ℕ) → m < k → get_elem? (take k xs) m ≡ get_elem? xs m
get_elem?-take zero m xs h = absurd (omega (arith, h))
get_elem?-take (suc k) m [] h = refl
get_elem?-take (suc k) zero (x ∷ xs) h = refl
get_elem?-take (suc k) (suc m) (x ∷ xs) h = get_elem?-take k m xs (omega (arith, h))

pub get_elem?-drop : (k m : ℕ) (xs : List ℕ) → get_elem? (drop k xs) m ≡ get_elem? xs (k + m)
unfolding drop
get_elem?-drop zero m xs = let e : 0 + m ≡ m = omega arith in rw e refl
get_elem?-drop (suc k) m [] = refl
get_elem?-drop (suc k) m (x ∷ xs) =
    let e : suc k + m ≡ suc (k + m) = omega arith in rw e (get_elem?-drop k m xs)

strip_even-double :
    (fuel w : ℕ) → 0 < w → strip_even (suc fuel) (2 * w) (2 * w) ≡ strip_even fuel w w
unfolding strip_even
strip_even-double fuel w h =
    let half : 2 * w / 2 ≡ w = omega arith in
    let even : (2 * w % 2 == 0) ≡ true = ground arith in
    let nonzero : (2 * w == 0) ≡ false = ground (arith, h) in rw (even, nonzero, half) refl

-- Halving a counter that is an odd number times a power of two.
strip_even-odd :
    (i a fuel : ℕ)
    → i ≤ fuel
    → strip_even fuel ((2 * a + 1) * 2 ^ i) ((2 * a + 1) * 2 ^ i) ≡ (2 * a + 1, 2 * a + 1)
unfolding strip_even
strip_even-odd zero a zero h = let e : (2 * a + 1) * 2 ^ 0 ≡ 2 * a + 1 = omega arith in rw e refl
strip_even-odd zero a (suc fuel) h =
    let e : (2 * a + 1) * 2 ^ 0 ≡ 2 * a + 1 = omega arith in
    let odd : ((2 * a + 1) % 2 == 0) ≡ false = ground arith in rw (e, odd) refl
strip_even-odd (suc i) a zero h = absurd (omega (arith, h))
strip_even-odd (suc i) a (suc fuel) h =
    let w = (2 * a + 1) * 2 ^ i in
    let twice : 2 ^ suc i ≡ 2 * 2 ^ i = omega arith in
    let e : (2 * a + 1) * 2 ^ suc i ≡ 2 * w = grind (arith, twice) in
    let p : 0 < w = grind (arith, pow_pos i) in
    rw e (strip_even-double fuel w p ∙ strip_even-odd i a fuel (omega (arith, h)))

exponent_le : (i : ℕ) → i < 2 ^ i
exponent_le zero = omega arith
exponent_le (suc i) = omega (arith, exponent_le i)

-- A number below `2 * w`, by its quotient and its remainder.
halve : (w s : ℕ) → s < 2 * w → (d s' : ℕ) × (d < 2) × (s' < w) × (s ≡ s' + d * w)
halve w s h = elim (Bool-cases (ltb s w)) [
  | inl l ↦ (0, s, omega arith, ground (arith, l), omega arith)
  | inr l ↦ (1, s - w, omega arith, ground (arith, l, h), ground (arith, l))
]

mul_two : (b w : ℕ) → b * (2 * w) ≡ 2 * (b * w)
mul_two b w = grind arith

mul_odd : (b d w : ℕ) → (2 * b + d) * w ≡ 2 * (b * w) + d * w
mul_odd b d w = grind arith

ascend-odd : (i a : ℕ) → ascend ((2 * a + 1) * 2 ^ i) ((2 * a + 1) * 2 ^ i) ≡ (a, a)
unfolding ascend
ascend-odd zero a =
    let e : (2 * a + 1) * 2 ^ 0 ≡ 2 * a + 1 = omega arith in
    let odd : ((2 * a + 1) % 2 == 0) ≡ false = ground arith in
    let same : (2 * a + 1 == 2 * a + 1) ≡ true = ==_refl (2 * a + 1) in
    let half : (2 * a + 1) / 2 ≡ a = omega arith in rw (e, same, odd, half) refl
ascend-odd (suc i) a =
    let w = (2 * a + 1) * 2 ^ suc i in
    let twice : 2 ^ suc i ≡ 2 * 2 ^ i = omega arith in
    let e : w ≡ 2 * ((2 * a + 1) * 2 ^ i) = grind (arith, twice) in
    let even : (w % 2 == 0) ≡ true = ground (arith, e) in
    let same : (w == w) ≡ true = ==_refl w in
    let half : (2 * a + 1) / 2 ≡ a = omega arith in
    let fuel : suc i ≤ w = grind (arith, exponent_le (suc i)) in
    rw (same, even, strip_even-odd (suc i) a w fuel, half) refl

module _ (sha256 : Bytes → ℕ) where
  -- The hash of the leaf at an index.
  abbrev leaf_of : Option ℕ → ℕ
  leaf_of none = 0
  leaf_of (some e) = leaf_hash sha256 e

  abbrev leaf_at : ℕ → List ℕ → ℕ
  leaf_at m es = leaf_of (get_elem? es m)

  -- A step up from a node that is not the last one of its level.
  climb-inner :
      (p : ℕ) (rest : List ℕ) (c a b r : ℕ)
      → c < 2
      → (d : ℕ) → d < 2
      → 2 * a + c < 2 * b + d
      → climb sha256 (p ∷ rest) (2 * a + c) (2 * b + d) r
        ≡ climb sha256 rest a b (if c == 1 then node_hash sha256 p r else node_hash sha256 r p)
  unfolding climb ascend
  climb-inner p rest c a b r hc d hd lt =
      let nonzero : (2 * b + d == 0) ≡ false = ground arith in
      let apart : (2 * a + c == 2 * b + d) ≡ false = ground arith in
      let bit : (2 * a + c) % 2 ≡ c = omega arith in
      let left : (2 * a + c) / 2 ≡ a = omega arith in
      let right : (2 * b + d) / 2 ≡ b = omega arith in
      let neither : (c == 1) || false ≡ (c == 1) = or_false (c == 1) in
      rw (nonzero, apart, left, right, bit, neither) refl

  -- A step up from the last node of its level, past the levels on which it stands alone.
  climb-last :
      (p : ℕ) (rest : List ℕ) (i a r : ℕ)
      → climb sha256 (p ∷ rest) ((2 * a + 1) * 2 ^ i) ((2 * a + 1) * 2 ^ i) r
        ≡ climb sha256 rest a a (node_hash sha256 p r)
  unfolding climb
  climb-last p rest i a r =
      let w = (2 * a + 1) * 2 ^ i in
      let positive : 0 < w = grind (arith, pow_pos i) in
      let nonzero : (w == 0) ≡ false = ground (arith, positive) in
      let same : (w == w) ≡ true = ==_refl w in
      let left : (w % 2 == 1) || true ≡ true = or_true (w % 2 == 1) in
      rw (nonzero, ascend-odd i a, same, left) refl

  single : (es : List ℕ) → length es ≡ 1 → (path sha256 0 es ≡ []) × (mth sha256 es ≡ leaf_at 0 es)
  unfolding path path_from mth mth_from
  single [] h = absurd (omega (arith, h))
  single (e ∷ []) h = (refl, refl)
  single (e ∷ e' ∷ es) h = absurd (omega (arith, h))

  -- The halves of a tree of more than 2 ^ j and at most 2 ^ (j + 1) leaves.
  path_left :
      (j m : ℕ) (es : List ℕ)
      → 2 ^ j < length es
      → length es ≤ 2 * 2 ^ j
      → m < 2 ^ j
      → path sha256 m es ≡ path sha256 m (take (2 ^ j) es) ++ mth sha256 (drop (2 ^ j) es) ∷ []
  path_left j m es lo hi h =
      let k = split-between j (length es) lo hi in
      let two : 2 ≤ length es = omega (arith, lo, pow_pos j) in
      let here : ltb m (2 ^ j) ≡ true = ground (arith, h) in
      path_halves sha256 m es two ∙ rw (k, here) refl

  path_right :
      (j m : ℕ) (es : List ℕ)
      → 2 ^ j < length es
      → length es ≤ 2 * 2 ^ j
      → 2 ^ j ≤ m
      → path sha256 m es
        ≡ path sha256 (m - 2 ^ j) (drop (2 ^ j) es) ++ mth sha256 (take (2 ^ j) es) ∷ []
  path_right j m es lo hi h =
      let k = split-between j (length es) lo hi in
      let two : 2 ≤ length es = omega (arith, lo, pow_pos j) in
      let there : ltb m (2 ^ j) ≡ false = ground (arith, h) in
      path_halves sha256 m es two ∙ rw (k, there) refl

  mth_split :
      (j : ℕ) (es : List ℕ)
      → 2 ^ j < length es
      → length es ≤ 2 * 2 ^ j
      → mth sha256 es
        ≡ node_hash sha256 (mth sha256 (take (2 ^ j) es)) (mth sha256 (drop (2 ^ j) es))
  mth_split j es lo hi =
      let k = split-between j (length es) lo hi in
      let two : 2 ≤ length es = omega (arith, lo, pow_pos j) in mth_halves sha256 es two ∙ rw k refl

  leaf-take : (k m : ℕ) (es : List ℕ) → m < k → leaf_at m (take k es) ≡ leaf_at m es
  leaf-take k m es h = ap leaf_of (get_elem?-take k m es h)

  leaf-drop : (k m : ℕ) (es : List ℕ) → k ≤ m → leaf_at (m - k) (drop k es) ≡ leaf_at m es
  leaf-drop k m es h =
      let e : k + (m - k) ≡ m = omega (arith, h) in
      ap leaf_of (get_elem?-drop k (m - k) es) ∙ ap (λ z. leaf_at z es) e

  -- Inside a tree, the path of a subtree of 2 ^ j leaves that is not the last of its level leads to
  -- the subtree's head, `j` levels up.
  climb-perfect :
      (j m s a b : ℕ) (es rest : List ℕ) (fn sn : ℕ)
      → length es ≡ 2 ^ j
      → m < 2 ^ j
      → s < 2 ^ j
      → a < b
      → fn ≡ m + a * 2 ^ j
      → sn ≡ s + b * 2 ^ j
      → climb sha256 (path sha256 m es ++ rest) fn sn (leaf_at m es)
        ≡ climb sha256 rest a b (mth sha256 es)
  climb-perfect zero m s a b es rest fn sn len hm hs lt ef es' =
      let first : m ≡ 0 = omega (arith, hm) in
      let (no_path, head) = single es (omega (arith, len)) in
      let f : fn ≡ a = omega (arith, ef, first) in
      let t : sn ≡ b = omega (arith, es', hs) in rw (first, no_path, head, f, t) refl
  climb-perfect (suc j) m s a b es rest fn sn len hm hs lt ef es' =
      let w = 2 ^ j in
      let twice : 2 ^ suc j ≡ 2 * w = omega arith in
      let (d, s', hd, hs', split_s) = halve w s (omega (arith, hs, twice)) in
      let below : w < length es = omega (arith, len, twice, pow_pos j) in
      let above : length es ≤ 2 * w = omega (arith, len, twice) in
      let sn_eq : sn ≡ s' + (2 * b + d) * w =
        omega (arith, subst (λ z. sn ≡ s + b * z) twice es', split_s, mul_two b w, mul_odd b d w) in
      let fn_two : fn ≡ m + 2 * (a * w) =
        omega (arith, subst (λ z. fn ≡ m + a * z) twice ef, mul_two a w) in
      elim (Bool-cases (ltb m w)) [
        | inl l ↦
            let lm : m < w = ground (arith, l) in
            let fn_eq : fn ≡ m + (2 * a + 0) * w = omega (arith, fn_two, mul_odd a 0 w) in
            let len' : length (take w es) ≡ w = length-take_le w es (omega (arith, below)) in
            let inside =
              climb-perfect j m s' (2 * a + 0) (2 * b + d) (take w es)
                (mth sha256 (drop w es) ∷ rest) fn sn len' lm hs' (omega (arith, lt)) fn_eq sn_eq in
            rw
              (
                path_left j m es below above lm,
                append_assoc (path sha256 m (take w es)) (mth sha256 (drop w es) ∷ []) rest,
                sym (leaf-take w m es lm),
                mth_split j es below above,
              )
              (inside
                ∙ climb-inner (mth sha256 (drop w es)) rest 0 a b (mth sha256 (take w es))
                    (omega arith) d hd (omega (arith, lt)))
        | inr l ↦
            let lm : w ≤ m = ground (arith, l) in
            let fn_eq : fn ≡ (m - w) + (2 * a + 1) * w = omega (arith, fn_two, mul_odd a 1 w, lm) in
            let len' : length (drop w es) ≡ w = omega (arith, length-drop w es, len, twice) in
            let inside =
              climb-perfect j (m - w) s' (2 * a + 1) (2 * b + d) (drop w es)
                (mth sha256 (take w es) ∷ rest) fn sn len' (omega (arith, hm, twice, lm)) hs'
                (omega (arith, lt)) fn_eq sn_eq in
            rw
              (
                path_right j m es below above lm,
                append_assoc (path sha256 (m - w) (drop w es)) (mth sha256 (take w es) ∷ []) rest,
                sym (leaf-drop w m es lm),
                mth_split j es below above,
              )
              (inside
                ∙ climb-inner (mth sha256 (take w es)) rest 1 a b (mth sha256 (drop w es))
                    (omega arith) d hd (omega (arith, lt)))
      ]

  -- At the right edge of a tree, the path of the last subtree of its level leads to its head, and the
  -- two counters are equal there.
  climb-edge :
      (j m a : ℕ) (es rest : List ℕ) (fn sn : ℕ)
      → length es ≤ 2 ^ j
      → m < length es
      → fn ≡ m + a * 2 ^ j
      → sn ≡ (length es - 1) + a * 2 ^ j
      → (i : ℕ) × (climb sha256 (path sha256 m es ++ rest) fn sn (leaf_at m es)
          ≡ climb sha256 rest (a * 2 ^ i) (a * 2 ^ i) (mth sha256 es))
  climb-edge zero m a es rest fn sn len hm ef es' =
      let first : m ≡ 0 = omega (arith, hm, len) in
      let (no_path, head) = single es (omega (arith, hm, len)) in
      let f : fn ≡ a * 2 ^ 0 = omega (arith, ef, first) in
      let t : sn ≡ a * 2 ^ 0 = omega (arith, es', len) in (0, rw (first, no_path, head, f, t) refl)
  climb-edge (suc j) m a es rest fn sn len hm ef es' =
      let w = 2 ^ j in
      let twice : 2 ^ suc j ≡ 2 * w = omega arith in
      let fn_two : fn ≡ m + 2 * (a * w) =
        omega (arith, subst (λ z. fn ≡ m + a * z) twice ef, mul_two a w) in
      let sn_two : sn ≡ (length es - 1) + 2 * (a * w) =
        omega (arith, subst (λ z. sn ≡ (length es - 1) + a * z) twice es', mul_two a w) in
      let above : length es ≤ 2 * w = omega (arith, len, twice) in
      elim (Bool-cases (leb (length es) w)) [
        | inl l ↦
            let small : length es ≤ w = ground (arith, l) in
            let (i, inside) =
              climb-edge j m (2 * a + 0) es rest fn sn small hm
                (omega (arith, fn_two, mul_odd a 0 w)) (omega (arith, sn_two, mul_odd a 0 w)) in
            let same : (2 * a + 0) * 2 ^ i ≡ a * 2 ^ suc i =
              omega
                (arith, mul_odd a 0 (2 ^ i), mul_two a (2 ^ i), ap (λ z. a * z) (twice_pow i)) in
            (suc i, inside ∙ ap (λ z. climb sha256 rest z z (mth sha256 es)) same)
        | inr l ↦
            let below : w < length es = ground (arith, l) in
            elim (Bool-cases (ltb m w)) [
              | inl q ↦
                  let lm : m < w = ground (arith, q) in
                  let len' : length (take w es) ≡ w = length-take_le w es (omega (arith, below)) in
                  let inside =
                    climb-perfect j m (length es - 1 - w) (2 * a + 0) (2 * a + 1) (take w es)
                      (mth sha256 (drop w es) ∷ rest) fn sn len' lm (omega (arith, below, above))
                      (omega arith) (omega (arith, fn_two, mul_odd a 0 w))
                      (omega (arith, sn_two, mul_odd a 1 w, below)) in
                  let up =
                    climb-inner (mth sha256 (drop w es)) rest 0 a a (mth sha256 (take w es))
                      (omega arith) 1 (omega arith) (omega arith) in
                  let stay : a * 2 ^ 0 ≡ a = omega arith in
                  (
                    0,
                    rw
                        (
                          path_left j m es below above lm,
                          append_assoc (path sha256 m (take w es)) (mth sha256 (drop w es) ∷ [])
                              rest,
                          sym (leaf-take w m es lm),
                          mth_split j es below above,
                          stay,
                        )
                        (inside ∙ up),
                  )
              | inr q ↦
                  let lm : w ≤ m = ground (arith, q) in
                  let len' : length (drop w es) ≡ length es - w = length-drop w es in
                  let (i, inside) =
                    climb-edge j (m - w) (2 * a + 1) (drop w es) (mth sha256 (take w es) ∷ rest) fn
                      sn (omega (arith, len', above)) (omega (arith, len', hm, lm))
                      (omega (arith, fn_two, mul_odd a 1 w, lm))
                      (omega (arith, sn_two, mul_odd a 1 w, len', below)) in
                  let up = climb-last (mth sha256 (take w es)) rest i a (mth sha256 (drop w es)) in
                  let stay : a * 2 ^ 0 ≡ a = omega arith in
                  (
                    0,
                    rw
                        (
                          path_right j m es below above lm,
                          append_assoc (path sha256 (m - w) (drop w es))
                              (mth sha256 (take w es) ∷ []) rest,
                          sym (leaf-drop w m es lm),
                          mth_split j es below above,
                          stay,
                        )
                        (inside ∙ up),
                  )
            ]
      ]

  verify_path :
      (m : ℕ) (es : List ℕ) (entry : ℕ)
      → get_elem? es m ≡ some entry
      → m < length es
      → verify_inclusion sha256 entry m (length es) (mth sha256 es) (path sha256 m es) ≡ true
  unfolding verify_inclusion climb
  verify_path m es entry here inside =
      let (i, up) =
        climb-edge (length es) m 0 es [] m (length es - 1) (omega (arith, exponent_le (length es)))
          inside (omega arith) (omega arith) in
      let range : leb (length es) m ≡ false = ground (arith, inside) in
      let start : leaf_at m es ≡ leaf_hash sha256 entry = ap leaf_of here in
      let nowhere : 0 * 2 ^ i ≡ 0 = omega arith in
      let done =
        sym (
          ap (λ z. climb sha256 z m (length es - 1) (leaf_at m es)) (append-nil (path sha256 m es)))
        ∙ up in
      rw (range, sym start, done, nowhere, ==_refl (mth sha256 es)) refl

  -- Every inclusion proof that the log gives out verifies: for the entry at that index and the tree
  -- head at that size, whatever their place in the tree.
  pub inclusion_round_trip :
      (l : Log) (index size entry head : ℕ) (proof : List ℕ)
      → inclusion_proof sha256 index size l ≡ some proof
      → root_at sha256 size l ≡ some head
      → get_elem? l index ≡ some entry
      → verify_inclusion sha256 entry index size head proof ≡ true
  unfolding inclusion_proof root_at
  inclusion_round_trip l index size entry head proof given at here =
      let small : size ≤ length l = ground (arith, given) in
      let inside : index < size = ground (arith, given) in
      let len : length (take size l) ≡ size = length-take_le size l small in
      let p : path sha256 index (take size l) ≡ proof = ground (arith, given) in
      let r : mth sha256 (take size l) ≡ head = ground (arith, at, small) in
      let it : get_elem? (take size l) index ≡ some entry =
        get_elem?-take size index l inside ∙ here in
      let checked = verify_path index (take size l) entry it (omega (arith, len, inside)) in
      subst (λ z. verify_inclusion sha256 entry index z head proof ≡ true) len
        (subst (λ z. verify_inclusion sha256 entry index (length (take size l)) z proof ≡ true) r
          (subst
            (λ z.
              verify_inclusion sha256 entry index (length (take size l)) (mth sha256 (take size l))
                z
              ≡ true)
            p checked))
