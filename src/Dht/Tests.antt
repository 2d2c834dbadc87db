-- ===== src/Dht/Tests.antt =====
-- A lookup and a routing table on which the theorems about core/dht apply.
use bitbit.Base.{ℕ, ◌≤◌, ◌≡◌, ◌≢◌, refl, true, false, some, [], ◌∷◌, ◌++◌, mem, arith}
use bitbit.Base.Maps.{lookup, insert}
use bitbit.Dht.Distance.{distance, closer, xor_bits, place, sort_by, bucket_index, highest_bit}
use bitbit.Dht.Lookup.{
  Lookup, phase, count, in_flight, pick, top_k, next_queries, any_unqueried, done, add, admit,
  admit_all, sorted, new_lookup, on_reply,
}
use bitbit.Dht.Table.{
  Table, new_table, set_diversity, learn, answering, observe, put_bucket, domain_saturated,
  in_domain,
}
use bitbit.Dht.Bound.{occurs, lookup_bounded}
use bitbit.Dht.Bound
use bitbit.Dht.Converge.{never_stalls}
use bitbit.Dht.Once.{Drives, asked_once}
use bitbit.Dht.Once
use bitbit.Dht.Buckets.{Reaches, Kept, admission_capped}
use bitbit.Dht.Buckets

-- Three candidates, one query at a time, the two closest wanted.
abbrev begun : Lookup
begun = new_lookup 4 2 1 (9 ∷ 5 ∷ 6 ∷ [])

abbrev asking : Lookup
asking = (next_queries begun).1

-- The first peer answers with another candidate, and the next one is asked.
abbrev answered : Lookup
answered = on_reply 5 (7 ∷ []) asking

abbrev asking_again : Lookup
asking_again = (next_queries answered).1

abbrev finished : Lookup
finished = on_reply 6 [] asking_again

finished-Reaches : Bound.Reaches finished
finished-Reaches =
    Bound.replies 6 [] (
      Bound.queries
        (Bound.replies 5 (7 ∷ []) (Bound.queries (Bound.starts 4 2 1 (9 ∷ 5 ∷ 6 ∷ [])))))

lookup_bounded_example : Bound.WellFormed finished
lookup_bounded_example = lookup_bounded finished finished-Reaches

begun_idle : in_flight begun ≡ 0
unfolding in_flight count new_lookup add sorted admit_all admit sort_by place closer distance
    xor_bits phase lookup insert
begun_idle = refl

begun-done : done begun ≡ false
unfolding done in_flight count top_k pick any_unqueried new_lookup add sorted admit_all admit
    sort_by place closer distance xor_bits phase lookup insert
begun-done = refl

never_stalls_example : (next_queries begun).0 ≢ []
unfolding new_lookup add sorted admit_all admit lookup insert
never_stalls_example = never_stalls begun (omega arith) begun_idle begun-done

asked_once_example : occurs 5 (([] ++ (next_queries begun).0) ++ (next_queries answered).0) ≤ 1
asked_once_example =
    asked_once asking_again (([] ++ (next_queries begun).0) ++ (next_queries answered).0) 5
      (Once.queries (Once.replies 5 (7 ∷ []) (Once.queries (Once.starts 4 2 1 (9 ∷ 5 ∷ 6 ∷ [])))))

-- Two peers of one domain whose messages come in first; the cap is one, and the second is refused.
abbrev domain_3 : ℕ → ℕ
domain_3 = answering 0 9 3 (answering 0 8 3 (λ id. 0))

abbrev told : Table
told = learn 9 3 (learn 8 3 (set_diversity (some (λ id. 0)) 1 (new_table 0 4)))

told-Reaches : Reaches told
told-Reaches = Buckets.learns 9 3 (Buckets.learns 8 3 (Buckets.starts 0 4 (some (λ id. 0)) 1))

abbrev guarded : Table
guarded = observe 9 (observe 8 told)

admission_capped_example :
    ((observe 8 told).buckets 3 ≡ told.buckets 3 ++ 8 ∷ [])
    × Kept told 3 (told.buckets 3 ++ 8 ∷ [])
    × (in_domain domain_3 3 (told.buckets 3 ++ 8 ∷ []) ≤ 1)
unfolding learn answering observe set_diversity new_table bucket_index highest_bit distance xor_bits
    put_bucket domain_saturated in_domain mem
admission_capped_example =
    admission_capped told 8 3 domain_3 told-Reaches refl refl refl refl (omega arith) (omega arith)

guarded_holds : (mem 8 (guarded.buckets 3) ≡ true) × (mem 9 (guarded.buckets 3) ≡ false)
unfolding learn answering observe set_diversity new_table bucket_index highest_bit distance xor_bits
    put_bucket domain_saturated in_domain mem
guarded_holds = (refl, refl)

-- The same two peers, taken in before their domains are known.
abbrev filled : Table
filled =
    learn 9 3 (learn 8 3 (observe 9 (observe 8 (set_diversity (some (λ id. 0)) 1 (new_table 0 4)))))

filled_over : in_domain domain_3 3 (filled.buckets 3) ≡ 2
unfolding learn answering observe set_diversity new_table bucket_index highest_bit distance xor_bits
    put_bucket domain_saturated in_domain mem
filled_over = refl
