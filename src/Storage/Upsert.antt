-- ===== src/Storage/Upsert.antt =====
-- INSERT OR REPLACE of src/storage/writer.cpp on a rollup table: the rows of one bucket and metric.
use pulseport.Storage.Engine.{matching, insert_by_ts, sort_by_ts}
use pulseport.Storage.Tables.{replace_row, same_bucket, HistoryRow, without, in_range}
use pulseport.Prelude.{
  All, Bool, List, [], append-nil, arith, eq_iff, false, not, refl, str_eq, true, ◌&&◌, ◌++◌, ◌∙◌,
  ◌∷◌, ◌≡◌,
}

module _ {ℓ} {A : Type ℓ} where
  without-append :
      (p : A → Bool) (xs ys : List A) → without p (xs ++ ys) ≡ without p xs ++ without p ys
  unfolding without
  without-append p [] ys = refl
  without-append p (x ∷ xs) ys = ground (arith, without-append p xs ys)

  -- A filter that keeps only what another one drops leaves nothing.
  without-without_none :
      (p q : A → Bool) (xs : List A)
      → ((x : A) → q x ≡ false → p x ≡ true)
      → without p (without q xs) ≡ []
  unfolding without
  without-without_none p q [] h = refl
  without-without_none p q (x ∷ xs) h = ground (arith, without-without_none p q xs h, h x)

  -- A filter that drops all that another one drops makes it superfluous.
  without-without_same :
      (p q : A → Bool) (xs : List A)
      → ((x : A) → q x ≡ true → p x ≡ true)
      → without p (without q xs) ≡ without p xs
  unfolding without
  without-without_same p q [] h = refl
  without-without_same p q (x ∷ xs) h = ground (arith, without-without_same p q xs h, h x)

module _ {ℓ} {D : Type ℓ} where
  pub sort_by_ts_singleton : (r : HistoryRow D) → sort_by_ts (r ∷ []) ≡ r ∷ []
  unfolding sort_by_ts insert_by_ts
  sort_by_ts_singleton r = refl

  -- The rows of one bucket, as `WHERE metric_key = k AND bucket_ts >= t AND bucket_ts <= t` selects them.
  abbrev pub at_bucket : HistoryRow D → List (HistoryRow D) → List (HistoryRow D)
  at_bucket r = matching r.metric_key r.bucket_ts r.bucket_ts

  -- The row is left out of a query for the bucket of `r`.
  abbrev outside : HistoryRow D → HistoryRow D → Bool
  outside r x =
      not (str_eq x.metric_key r.metric_key && in_range r.bucket_ts r.bucket_ts x.bucket_ts)

  outside_of_ne : (r x : HistoryRow D) → same_bucket r x ≡ false → outside r x ≡ true
  outside_of_ne r x h =
      ground (arith, eq_iff x.metric_key r.metric_key, eq_iff r.metric_key x.metric_key)

  outside_self : (r : HistoryRow D) → outside r r ≡ false
  outside_self r = ground (arith, eq_iff r.metric_key r.metric_key)

  same_bucket_trans :
      (r s x : HistoryRow D)
      → same_bucket r s ≡ false
      → same_bucket s x ≡ true
      → same_bucket r x ≡ false
  same_bucket_trans r s x h k = ground (
    arith,
    eq_iff r.metric_key s.metric_key,
    eq_iff s.metric_key x.metric_key,
    eq_iff r.metric_key x.metric_key,
  )

  at_bucket-replace_row_self :
      (r : HistoryRow D) (rows : List (HistoryRow D))
      → at_bucket r (replace_row same_bucket r rows) ≡ r ∷ []
  unfolding matching replace_row without
  at_bucket-replace_row_self r rows = rw (
    without-append (outside r) (without (same_bucket r) rows) (r ∷ []),
    without-without_none (outside r) (same_bucket r) rows (outside_of_ne r),
    outside_self r,
  )

  at_bucket-replace_row_other :
      (r s : HistoryRow D) (rows : List (HistoryRow D))
      → same_bucket r s ≡ false
      → at_bucket r (replace_row same_bucket s rows) ≡ at_bucket r rows
  unfolding matching replace_row without
  at_bucket-replace_row_other r s rows ne = rw (
    without-append (outside r) (without (same_bucket s) rows) (s ∷ []),
    without-without_same (outside r) (same_bucket s) rows
        (λ x k. outside_of_ne r x (same_bucket_trans r s x ne k)),
    outside_of_ne r s ne,
    append-nil,
  )

  -- The rows of a batch, upserted in order.
  unfoldable pub upsert_all : List (HistoryRow D) → List (HistoryRow D) → List (HistoryRow D)
  upsert_all [] rows = rows
  upsert_all (r ∷ batch) rows = upsert_all batch (replace_row same_bucket r rows)

  at_bucket-upsert_all_other :
      (r : HistoryRow D) (batch rows : List (HistoryRow D))
      → All (λ s. same_bucket r s ≡ false) batch
      → at_bucket r (upsert_all batch rows) ≡ at_bucket r rows
  unfolding upsert_all
  at_bucket-upsert_all_other r [] rows h = refl
  at_bucket-upsert_all_other r (s ∷ batch) rows (ne, h) =
      at_bucket-upsert_all_other r batch (replace_row same_bucket s rows) h
      ∙ at_bucket-replace_row_other r s rows ne

  -- The last row of a batch for its bucket is the one row of that bucket in the table.
  pub at_bucket-upsert_all :
      (before after : List (HistoryRow D)) (r : HistoryRow D) (rows : List (HistoryRow D))
      → All (λ s. same_bucket r s ≡ false) after
      → at_bucket r (upsert_all (before ++ (r ∷ after)) rows) ≡ r ∷ []
  unfolding upsert_all
  at_bucket-upsert_all [] after r rows h =
      at_bucket-upsert_all_other r after (replace_row same_bucket r rows) h
      ∙ at_bucket-replace_row_self r rows
  at_bucket-upsert_all (s ∷ before) after r rows h =
      at_bucket-upsert_all before after r (replace_row same_bucket s rows) h
