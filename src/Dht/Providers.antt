-- ===== src/Dht/Providers.antt =====
-- The provider records of core/dht/providers.go and ports/net.go.
use bitbit.Base.{ℕ, ◌+◌, List, [], ◌∷◌, map, ltb, ◌==◌, if◌then◌else◌, length}
use bitbit.Base.Int.{ℤ}
use bitbit.Base.Maps.{Map, lookup, insert, get_or}
use bitbit.Base.Bytes.{Bytes}
use bitbit.Dht.Distance.{sort_by}

pub record ProviderRecord : Type 0 where
  pub key : ℕ
  pub id : ℕ
  pub pub_key : Bytes
  pub expiry : ℤ
  pub sig : Bytes

abbrev pub Providers : Type 0
Providers = Map (List ProviderRecord)

-- A repeat announcement replaces the first record of the same provider.
unfoldable pub put_record : ProviderRecord → List ProviderRecord → List ProviderRecord
put_record r [] = r ∷ []
put_record r (x ∷ xs) = let rest = put_record r xs in if x.id == r.id then r ∷ xs else x ∷ rest

unfoldable pub records : ℕ → Providers → List ProviderRecord
records key p = get_or (lookup key p) []

unfoldable pub add_record : ProviderRecord → Providers → Providers
add_record r p = insert r.key (put_record r (records r.key p)) p

unfoldable pub get_records : ℕ → Providers → List ProviderRecord
get_records key p = sort_by ProviderRecord.id key (records key p)

unfoldable pub ids : ℕ → Providers → List ℕ
ids key p = map ProviderRecord.id (get_records key p)

unfoldable pub kept : ℕ → List ProviderRecord → List ProviderRecord
kept provider [] = []
kept provider (r ∷ rs) = let rest = kept provider rs in if r.id == provider then rest else r ∷ rest

unfoldable pub remove_provider : ℕ → Providers → Providers
remove_provider provider [] = []
remove_provider provider ((key, rs) ∷ p) = (key, kept provider rs) ∷ remove_provider provider p

unfoldable pub key_count : Providers → ℕ
key_count [] = 0
key_count ((key, rs) ∷ p) = (if ltb 0 (length rs) then 1 else 0) + key_count p
