-- ===== src/Translog/History.antt =====
-- Earlier sizes of the log of core/translog/translog.go.
use bitbit.Base.{
  ℕ, zero, suc, ◌≤◌, ◌≡◌, refl, ap, ◌∙◌, List, [], ◌∷◌, ◌++◌, length, length-append, take, arith,
}
use bitbit.Base.Bytes.{Bytes}
use bitbit.Translog.{Log, append, root_at, inclusion_proof, consistency_proof}

-- Any number of entries, appended one by one.
unfoldable pub append_all : List ℕ → Log → Log
append_all [] l = l
append_all (e ∷ es) l = append_all es (append e l).1

take-append_left : (n : ℕ) (xs ys : List ℕ) → n ≤ length xs → take n (xs ++ ys) ≡ take n xs
take-append_left zero xs ys h = refl
take-append_left (suc n) [] ys h = absurd (omega (arith, h))
take-append_left (suc n) (x ∷ xs) ys h = ap (λ z. x ∷ z) (take-append_left n xs ys (omega arith))

module _ (sha256 : Bytes → ℕ) where
  -- What one more entry changes of the answers about an old size: nothing.
  pub record Same (l l' : Log) (size : ℕ) : Type 0 where
    pub same_root : root_at sha256 size l' ≡ root_at sha256 size l
    pub same_inclusion :
        (index : ℕ) → inclusion_proof sha256 index size l' ≡ inclusion_proof sha256 index size l
    pub same_consistency :
        (m : ℕ) → consistency_proof sha256 m size l' ≡ consistency_proof sha256 m size l
    pub longer : size ≤ length l'

  append-Same : (e : ℕ) (l : Log) (size : ℕ) → size ≤ length l → Same l (append e l).1 size
  unfolding append root_at inclusion_proof consistency_proof
  append-Same e l size h = record {
    same_root = ground (arith, take-append_left size l (e ∷ []) h, length-append l (e ∷ []));
    same_inclusion =
        λ index. ground (arith, take-append_left size l (e ∷ []) h, length-append l (e ∷ []));
    same_consistency =
        λ m. ground (arith, take-append_left size l (e ∷ []) h, length-append l (e ∷ []));
    longer = omega (arith, length-append l (e ∷ []));
  }

  -- History cannot be rewritten by appending: whatever is appended to a log, the tree head, the
  -- inclusion proofs and the consistency proofs of each size that it had stay what they were.
  pub history_fixed :
      (es : List ℕ) (l : Log) (size : ℕ) → size ≤ length l → Same l (append_all es l) size
  unfolding append_all
  history_fixed [] l size h = record {
    same_root = refl;
    same_inclusion = λ index. refl;
    same_consistency = λ m. refl;
    longer = h;
  }
  history_fixed (e ∷ es) l size h =
      let one = append-Same e l size h in
      let rest = history_fixed es (append e l).1 size one.longer in
      record {
        same_root = rest.same_root ∙ one.same_root;
        same_inclusion = λ index. rest.same_inclusion index ∙ one.same_inclusion index;
        same_consistency = λ m. rest.same_consistency m ∙ one.same_consistency m;
        longer = rest.longer;
      }
