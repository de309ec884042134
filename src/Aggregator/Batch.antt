-- ===== src/Aggregator/Batch.antt =====
-- flush_1m of src/metrics/aggregator.cpp: the batch of aggregates collected from the buckets.
use mathlib.Core.Path.{subst}
use mathlib.Core.Option.{some-injective}
use pulseport.Storage.Tables.{HistoryRow, same_bucket}
use pulseport.Storage.Writer.{row_of}
use pulseport.Aggregator.{collect, is_empty_list}
use pulseport.Aggregator.Bucket.{reset, WorkingBucket, to_aggregate}
use pulseport.Prelude.{
  All, Bool-cases, List, String, [], ap, arith, eq_iff, false, inl, inr, ltb, lt→ltb, map, refl,
  some, str_eq, sym, ◌++◌, ◌<◌, ◌∷◌, ◌≡◌,
}
use pulseport.Prelude.Int.{ℤ}
use pulseport.Prelude.Double.{Double}
use pulseport.Prelude.Dict.{Dict, IsMap, Lacks, lookup, lookup_or}
use pulseport.Types.{MetricAggregate}

module _ {ℓ} {D : Type ℓ} ⦃d : Double D⦄ where
  -- The aggregate of a bucket in the batch of a flush, with none of the same key behind it.
  pub record InBatch (ts : ℤ) (key : String) (b : WorkingBucket D)
      (batch : List (MetricAggregate D)) : Type ℓ where
    pub before : List (MetricAggregate D)
    pub after : List (MetricAggregate D)
    pub split : batch ≡ before ++ (to_aggregate b key ts ∷ after)
    pub others :
        All
          (λ (s : HistoryRow D). same_bucket (row_of (to_aggregate b key ts)) s ≡ false)
          (map row_of after)

  collect-others :
      (ts : ℤ) (key : String) (b : WorkingBucket D) (m : Dict (WorkingBucket D))
      → Lacks key m
      → All
          (λ (s : HistoryRow D). same_bucket (row_of (to_aggregate b key ts)) s ≡ false)
          (map row_of (collect ts m))
  unfolding collect to_aggregate row_of
  collect-others ts key b [] h = tt
  collect-others ts key b ((j, c) ∷ m) (ne, h) = elim (Bool-cases (ltb 0 c.count)) [
    | inl used ↦ rw used (ground (arith, eq_iff j key, eq_iff key j), collect-others ts key b m h)
    | inr unused ↦ rw unused (collect-others ts key b m h)
  ]

  collect-InBatch_head :
      (ts : ℤ) (key : String) (c : WorkingBucket D) (m : Dict (WorkingBucket D))
      → Lacks key m
      → 0 < c.count
      → InBatch ts key c (collect ts ((key, c) ∷ m))
  unfolding collect
  collect-InBatch_head ts key c m lacks p = rw (lt→ltb 0 c.count p) (record {
    before = [];
    after = collect ts m;
    split = refl;
    others = collect-others ts key c m lacks;
  })

  pub lookup_of_count :
      (key : String) (m : Dict (WorkingBucket D))
      → 0 < (lookup_or key reset m).count
      → lookup key m ≡ some (lookup_or key reset m)
  unfolding lookup_or reset
  lookup_of_count key m p = ground arith

  pub is_empty_list-append :
      (xs : List (MetricAggregate D)) (a : MetricAggregate D) (ys : List (MetricAggregate D))
      → is_empty_list (xs ++ (a ∷ ys)) ≡ false
  unfolding is_empty_list
  is_empty_list-append [] a ys = refl
  is_empty_list-append (x ∷ xs) a ys = refl

  pub collect-InBatch :
      (ts : ℤ) (key : String) (b : WorkingBucket D) (m : Dict (WorkingBucket D))
      → IsMap m
      → lookup key m ≡ some b
      → 0 < b.count
      → InBatch ts key b (collect ts m)
  unfolding collect lookup
  collect-InBatch ts key b [] u h p = cc
  collect-InBatch ts key b ((j, c) ∷ m) (lacks, u) h p = elim (Bool-cases (str_eq j key)) [
    | inl same ↦
        let k : j ≡ key = (eq_iff j key).0 same in
        let c_b : c ≡ b = some-injective _ _ (rw same at h) in
        subst (λ w. InBatch ts key w (collect ts ((j, c) ∷ m))) c_b
          (subst (λ x. InBatch ts x c (collect ts ((j, c) ∷ m))) k
            (collect-InBatch_head ts j c m lacks (subst (λ w. 0 < w.count) (sym c_b) p)))
    | inr other ↦
        let r = collect-InBatch ts key b m u (rw other at h) p in
        elim (Bool-cases (ltb 0 c.count)) [
          | inl used ↦ rw used (record {
            before = to_aggregate c j ts ∷ r.before;
            after = r.after;
            split = ap (λ l. to_aggregate c j ts ∷ l) r.split;
            others = r.others;
          })
          | inr unused ↦ rw unused r
        ]
  ]
