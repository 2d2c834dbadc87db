-- ===== src/Registry/Tests.antt =====
-- Entries and a ledger on which the theorems about core/registry apply.
use bitbit.Base.{ℕ, ◌≡◌, refl, none, List, [], ◌∷◌}
use bitbit.Base.Int.{pos}
use bitbit.Base.Maps.{lookup}
use bitbit.Chain.Types.{Entry}
use bitbit.Credit.{new}
use bitbit.Registry.Log.{Log, lookup_entry, all}
use bitbit.Registry.Log
use bitbit.Registry.Gated.{Gated, publish}
use bitbit.Registry.Refinement.{publish_all, spec_all, found, find, registry_refines, IsIndexed}
use bitbit.Registry.Charging.{Settled, gated_publish}

abbrev entry_of : ℕ → ℕ → ℕ → Entry
entry_of root size publisher = record {
  root = root;
  manifest_chunks = root ∷ [];
  file_size = pos size;
  publisher = publisher;
  token = none;
}

-- A new file, the same again, another, and one that claims a root that is taken.
abbrev entries : List Entry
entries = entry_of 1 100 5 ∷ entry_of 1 100 6 ∷ entry_of 2 200 5 ∷ entry_of 2 999 5 ∷ []

registry_refines_example :
    ((publish_all entries Log.new).1 ≡ (spec_all entries []).1)
    × (all (publish_all entries Log.new).0 ≡ (spec_all entries []).0)
    × ((root : ℕ)
        → lookup_entry root (publish_all entries Log.new).0
          ≡ found (find root (spec_all entries []).0))
registry_refines_example = registry_refines entries

abbrev start : Gated
start = record { log = Log.new; ledger = new (pos 10) (pos 40) }

start-IsIndexed : IsIndexed start.log
unfolding lookup_entry lookup
start-IsIndexed root = refl

gated_publish_example : Settled (entry_of 1 100 5) start (publish (entry_of 1 100 5) start)
gated_publish_example = gated_publish (entry_of 1 100 5) start start-IsIndexed
