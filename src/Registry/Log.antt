-- ===== src/Registry/Log.antt =====
-- The registry in one process: core/registry/registry.go. Its lock makes each method one step.
use bitbit.Base.{
  ℕ, Bool, true, false, ◌||◌, not, Option, none, some, List, [], ◌∷◌, ◌++◌, length, get_elem?, ◌==◌,
  if◌then◌else◌,
}
use bitbit.Base.Int.{eq_ℤ}
use bitbit.Base.Maps.{Map, lookup, insert}
use bitbit.Chain.Types.{Entry}

pub record Log : Type 0 where
  pub entries : List Entry
  pub by_root : Map ℕ

-- The errors of ports.go, and an index out of range, which panics.
pub data Reply : Type 0 where
  ok dup_publish insufficient_credit publisher_required panicked : Reply

abbrev pub new : Log
new = record { entries = []; by_root = [] }

-- The loop over two slices of one length.
unfoldable pub same_chunks : List ℕ → List ℕ → Bool
same_chunks (x ∷ xs) (y ∷ ys) = if not (x == y) then false else same_chunks xs ys
same_chunks _ _ = true

unfoldable pub same_content : Entry → Entry → Bool
same_content a b =
    if not (a.root == b.root)
      || (not (eq_ℤ a.file_size b.file_size)
          || not (length a.manifest_chunks == length b.manifest_chunks))
    then false
    else same_chunks a.manifest_chunks b.manifest_chunks

abbrev pub republish : Option Entry → Entry → Log → Log × Reply
republish none e l = (l, panicked)
republish (some held) e l = if same_content held e then (l, ok) else (l, dup_publish)

unfoldable pub publish : Entry → Log → Log × Reply
publish e l = elim (lookup e.root l.by_root) [
  | some i ↦ republish (get_elem? l.entries i) e l
  | none ↦ (
    record l {
      by_root = insert e.root (length l.entries) l.by_root;
      entries = l.entries ++ e ∷ [];
    },
    ok,
  )
]

pub data Found : Type 0 where
  missing : Found
  holds : Entry → Found
  out_of_range : Found

abbrev pub at_index : Option Entry → Found
at_index none = out_of_range
at_index (some e) = holds e

unfoldable pub lookup_entry : ℕ → Log → Found
lookup_entry root l = elim (lookup root l.by_root) [
  | none ↦ missing
  | some i ↦ at_index (get_elem? l.entries i)
]

-- A copy of the entries.
unfoldable pub all : Log → List Entry
all l = l.entries
