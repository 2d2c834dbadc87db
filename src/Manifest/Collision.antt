-- ===== src/Manifest/Collision.antt =====
-- The inputs that are hashed to build a tree of core/manifest/merkle.go and to check a proof, and what a
-- collision between them is.
use bitbit.Base.{
  ℕ, ◌-◌, ◌^◌, ◌<◌, ◌≤◌, ◌≡◌, ◌≢◌, ◌⊎◌, ap, some, List, [], ◌∷◌, ◌++◌, length, take, drop, arith,
  inl, inr,
}
use bitbit.Base.Bytes.{Bytes, bytes_cases, be_bytes, be_bytes-injective}
use bitbit.Chain.State.{hash_bytes}
use bitbit.Manifest.Merkle.{
  unsnoc, largest_power_of_two_below, merkle_tree_hash, root_from_path, leaf_hash,
}

-- A digest of 32 bytes.
abbrev pub IsHash : ℕ → Type 0
IsHash h = h < 2 ^ 256

-- What is hashed for a leaf, and for two subtrees.
abbrev pub leaf_input : ℕ → Bytes
leaf_input leaf = 0 ∷ hash_bytes leaf

abbrev pub node_input : ℕ → ℕ → Bytes
node_input left right = 1 ∷ (hash_bytes left ++ hash_bytes right)

module _ (sha256 : Bytes → ℕ) where
  -- The inputs that are hashed to build the tree of these leaves: one for each leaf, and one for
  -- each subtree of two leaves or more.
  pub data Builds : List ℕ → Bytes → Type 0 where
    from_leaf : (e : ℕ) → Builds (e ∷ []) (leaf_input e)
    from_node :
        (es : List ℕ)
        → 2 ≤ length es
        → Builds es (
            node_input
              (merkle_tree_hash sha256 (take (largest_power_of_two_below (length es)) es))
              (merkle_tree_hash sha256 (drop (largest_power_of_two_below (length es)) es)))
    in_left :
        {x : Bytes} (es : List ℕ)
        → 2 ≤ length es
        → Builds (take (largest_power_of_two_below (length es)) es) x
        → Builds es x
    in_right :
        {x : Bytes} (es : List ℕ)
        → 2 ≤ length es
        → Builds (drop (largest_power_of_two_below (length es)) es) x
        → Builds es x

  -- The inputs that are hashed to check the proof of a leaf: one for the leaf, and one for each
  -- sibling of the path.
  pub data Checks (leaf : ℕ) : ℕ → ℕ → List ℕ → Bytes → Type 0 where
    from_start : (m n : ℕ) (path : List ℕ) → Checks leaf m n path (leaf_input leaf)
    on_left :
        (fuel m n below sibling : ℕ) (path rest : List ℕ)
        → unsnoc path ≡ some (rest, sibling)
        → m < largest_power_of_two_below n
        → root_from_path sha256 fuel m (largest_power_of_two_below n) (leaf_hash sha256 leaf) rest
          ≡ some below
        → Checks leaf m n path (node_input below sibling)
    on_right :
        (fuel m n below sibling : ℕ) (path rest : List ℕ)
        → unsnoc path ≡ some (rest, sibling)
        → largest_power_of_two_below n ≤ m
        → root_from_path sha256 fuel
            (m - largest_power_of_two_below n)
            (n - largest_power_of_two_below n)
            (leaf_hash sha256 leaf)
            rest
          ≡ some below
        → Checks leaf m n path (node_input sibling below)
    under_left :
        {x : Bytes} (m n sibling : ℕ) (path rest : List ℕ)
        → unsnoc path ≡ some (rest, sibling)
        → m < largest_power_of_two_below n
        → Checks leaf m (largest_power_of_two_below n) rest x
        → Checks leaf m n path x
    under_right :
        {x : Bytes} (m n sibling : ℕ) (path rest : List ℕ)
        → unsnoc path ≡ some (rest, sibling)
        → largest_power_of_two_below n ≤ m
        → Checks leaf (m - largest_power_of_two_below n) (n - largest_power_of_two_below n) rest x
        → Checks leaf m n path x

  -- An input of the check and a different one of the tree that have one digest.
  pub record Collision (leaves : List ℕ) (leaf m n : ℕ) (path : List ℕ) : Type 0 where
    pub first : Bytes
    pub second : Bytes
    pub checked : Checks leaf m n path first
    pub built : Builds leaves second
    pub differ : first ≢ second
    pub digest : sha256 first ≡ sha256 second

pub same_input :
    (sha256 : Bytes → ℕ) (leaves : List ℕ) (leaf m n : ℕ) (path : List ℕ) (xs ys : Bytes)
    → Checks sha256 leaf m n path xs
    → Builds sha256 leaves ys
    → sha256 xs ≡ sha256 ys
    → (xs ≡ ys) ⊎ Collision sha256 leaves leaf m n path
same_input sha256 leaves leaf m n path xs ys checked built h = elim (bytes_cases xs ys) [
  | inl e ↦ inl e
  | inr e ↦
      inr (record {
        first = xs;
        second = ys;
        checked = checked;
        built = built;
        differ = e;
        digest = h;
      })
]

tail-eq : {a b : ℕ} {xs ys : Bytes} → a ∷ xs ≡ b ∷ ys → xs ≡ ys
tail-eq h = cc

pub leaf_input-injective : (a b : ℕ) → IsHash a → IsHash b → leaf_input a ≡ leaf_input b → a ≡ b
unfolding hash_bytes
leaf_input-injective a b ha hb e =
    let padded : be_bytes 32 a ++ [] ≡ be_bytes 32 b ++ [] = ap (λ z. z ++ []) (tail-eq e) in
    (be_bytes-injective 32 a b [] [] (omega (arith, ha)) (omega (arith, hb)) padded).0

pub node_input-injective :
    (a b c d : ℕ)
    → IsHash a
    → IsHash b
    → IsHash c
    → IsHash d
    → node_input a b ≡ node_input c d
    → (a ≡ c) × (b ≡ d)
unfolding hash_bytes
node_input-injective a b c d ha hb hc hd e =
    let (left, rest) =
      be_bytes-injective 32 a c (be_bytes 32 b) (be_bytes 32 d) (omega (arith, ha))
        (omega (arith, hc)) (tail-eq e) in
    let padded : be_bytes 32 b ++ [] ≡ be_bytes 32 d ++ [] = ap (λ z. z ++ []) rest in
    (left, (be_bytes-injective 32 b d [] [] (omega (arith, hb)) (omega (arith, hd)) padded).0)
