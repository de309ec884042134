-- ===== src/Aggregator/Extremes.antt =====
-- WorkingBucket of src/metrics/aggregator.cpp after any number of readings.
use mathlib.Core.Path.{subst}
use pulseport.Aggregator.Bucket.{WorkingBucket, add_value, reset}
use pulseport.Prelude.{
  All, List, [], arith, inl, inr, length, map, refl, sym, ◌++◌, ◌+◌, ◌<◌, ◌∙◌, ◌∷◌, ◌≡◌, ◌≤◌, ◌⊎◌,
}
use pulseport.Prelude.Double.{Double, IsOrdered, fmax, fmin, ◌≼◌}
use pulseport.Types.{MetricSample, Quality, rank, worse}

-- A value is one of a list's.
pub data OneOf {ℓ} {A : Type ℓ} (a : A) : List A → Type ℓ where
  first : (b : A) (xs : List A) → a ≡ b → OneOf a (b ∷ xs)
  later : (b : A) (xs : List A) → OneOf a xs → OneOf a (b ∷ xs)

OneOf-split {ℓ} :
    {A : Type ℓ} {m x y z : A} {xs : List A}
    → (m ≡ x) ⊎ (m ≡ y)
    → OneOf z (m ∷ xs)
    → OneOf z (x ∷ y ∷ xs)
OneOf-split (inl p) (OneOf.first b xs e) = OneOf.first _ _ (e ∙ p)
OneOf-split (inr p) (OneOf.first b xs e) = OneOf.later _ _ (OneOf.first _ _ (e ∙ p))
OneOf-split p (OneOf.later b xs r) = OneOf.later _ _ (OneOf.later _ _ r)

count-reset {ℓ} : (D : Type ℓ) ⦃d : Double D⦄ → (reset {D = D}).count ≡ 0
unfolding reset
count-reset D = refl

pub rank-worse :
    (worst q : Quality) → (rank worst ≤ rank (worse worst q)) × (rank q ≤ rank (worse worst q))
rank-worse worst q = ground arith

module _ {ℓ} {D : Type ℓ} ⦃d : Double D⦄ where
  -- Values added one after the other.
  unfoldable pub add_all : WorkingBucket D → List (D × Quality) → WorkingBucket D
  add_all b [] = b
  add_all b ((v, q) ∷ vs) = add_all (add_value b v q) vs

  -- The values and qualities of some samples.
  abbrev pub readings : List (MetricSample D) → List (D × Quality)
  readings = map (λ (s : MetricSample D). (s.value, s.quality))

  pub add_all-append :
      (b : WorkingBucket D) (xs ys : List (D × Quality))
      → add_all b (xs ++ ys) ≡ add_all (add_all b xs) ys
  unfolding add_all
  add_all-append b [] ys = refl
  add_all-append b ((v, q) ∷ xs) ys = add_all-append (add_value b v q) xs ys

  pub count-add_all :
      (b : WorkingBucket D) (xs : List (D × Quality)) → (add_all b xs).count ≡ b.count + length xs
  unfolding add_all add_value
  count-add_all b [] = omega arith
  count-add_all b ((v, q) ∷ xs) = omega (arith, count-add_all (add_value b v q) xs)

  -- One reading, added to a bucket that has some already, and to one that has none.
  add_value_next :
      (b : WorkingBucket D) (v : D) (q : Quality)
      → let c = add_value b v q in
        (0 < b.count → (c.min_val ≡ fmin b.min_val v) × (c.max_val ≡ fmax b.max_val v))
        × (b.count ≡ 0 → (c.min_val ≡ v) × (c.max_val ≡ v))
        × (c.count ≡ b.count + 1)
        × (c.worst_quality ≡ worse b.worst_quality q)
  unfolding add_value
  add_value_next b v q = (λ p. ground arith, λ p. ground arith, refl, refl)

  -- What a bucket says of the readings `xs` added to it.
  pub record Summarises (b : WorkingBucket D) (xs : List (D × Quality)) : Type ℓ where
    pub count_eq : b.count ≡ length xs
    pub above_min : All (λ (x : D × Quality). b.min_val ≼ x.0) xs
    pub below_max : All (λ (x : D × Quality). x.0 ≼ b.max_val) xs
    pub min_reached : OneOf b.min_val (map (λ (x : D × Quality). x.0) xs)
    pub max_reached : OneOf b.max_val (map (λ (x : D × Quality). x.0) xs)
    pub worst_of : All (λ (x : D × Quality). rank x.1 ≤ rank b.worst_quality) xs

  module _ (laws : IsOrdered D) where
    open laws use {refl_of_le, le_trans, le_total, lt-eq-not-le}

    pub fmin-le : (a b : D) → a ≼ a → b ≼ b → (fmin a b ≼ a) × (fmin a b ≼ b)
    fmin-le a b ha hb = ground (arith, lt-eq-not-le b a hb ha, le_total a b ha hb)

    pub le-fmax : (a b : D) → a ≼ a → b ≼ b → (a ≼ fmax a b) × (b ≼ fmax a b)
    le-fmax a b ha hb = ground (arith, lt-eq-not-le a b ha hb, le_total a b ha hb)

    fmin-cases : (a b : D) → (fmin a b ≡ a) ⊎ (fmin a b ≡ b)
    fmin-cases a b = ground arith

    fmax-cases : (a b : D) → (fmax a b ≡ a) ⊎ (fmax a b ≡ b)
    fmax-cases a b = ground arith

    -- The bounds hold of the readings still to come and of those before, kept in `lo` and `hi`.
    record Bounds (b c : WorkingBucket D) (xs : List (D × Quality)) : Type ℓ where
      lower : c.min_val ≼ b.min_val
      upper : b.max_val ≼ c.max_val
      above_min : All (λ (x : D × Quality). c.min_val ≼ x.0) xs
      below_max : All (λ (x : D × Quality). x.0 ≼ c.max_val) xs
      worst_ge : rank b.worst_quality ≤ rank c.worst_quality
      worst_of : All (λ (x : D × Quality). rank x.1 ≤ rank c.worst_quality) xs
      min_reached : OneOf c.min_val (b.min_val ∷ map (λ (x : D × Quality). x.0) xs)
      max_reached : OneOf c.max_val (b.max_val ∷ map (λ (x : D × Quality). x.0) xs)

    add_all-Bounds :
        (b : WorkingBucket D) (xs : List (D × Quality))
        → 0 < b.count
        → b.min_val ≼ b.min_val
        → b.max_val ≼ b.max_val
        → All (λ (x : D × Quality). x.0 ≼ x.0) xs
        → Bounds b (add_all b xs) xs
    unfolding add_all
    add_all-Bounds b [] p lo hi nums = record {
      lower = lo;
      upper = hi;
      above_min = tt;
      below_max = tt;
      worst_ge = omega arith;
      worst_of = tt;
      min_reached = OneOf.first _ _ refl;
      max_reached = OneOf.first _ _ refl;
    }
    add_all-Bounds b ((v, q) ∷ xs) p lo hi (num, nums) =
        let c = add_value b v q in
        let (least, least') = fmin-le b.min_val v lo num in
        let (most, most') = le-fmax b.max_val v hi num in
        let (worse_old, worse_new) = rank-worse b.worst_quality q in
        let next = add_value_next b v q in
        let cmin : c.min_val ≡ fmin b.min_val v = (next.0 p).0 in
        let cmax : c.max_val ≡ fmax b.max_val v = (next.0 p).1 in
        let r =
          add_all-Bounds c xs (omega (arith, next.2))
            (subst (λ m. m ≼ m) (sym cmin) (refl_of_le _ _ least).0)
            (subst (λ m. m ≼ m) (sym cmax) (refl_of_le _ _ most).1) nums in
        let f = add_all c xs in
        let lower' = subst (λ m. f.min_val ≼ m) cmin r.lower in
        let upper' = subst (λ m. m ≼ f.max_val) cmax r.upper in
        let worst' = subst (λ w. rank w ≤ rank f.worst_quality) next.3 r.worst_ge in
        record {
          lower = le_trans _ _ _ lower' least;
          upper = le_trans _ _ _ most upper';
          above_min = (le_trans _ _ _ lower' least', r.above_min);
          below_max = (le_trans _ _ _ most' upper', r.below_max);
          worst_ge = omega (arith, worst');
          worst_of = (omega (arith, worst'), r.worst_of);
          min_reached = OneOf-split (fmin-cases b.min_val v) (
              subst (λ m. OneOf f.min_val (m ∷ map (λ (x : D × Quality). x.0) xs)) cmin
                r.min_reached);
          max_reached = OneOf-split (fmax-cases b.max_val v) (
              subst (λ m. OneOf f.max_val (m ∷ map (λ (x : D × Quality). x.0) xs)) cmax
                r.max_reached);
        }

    -- After any number of readings that are not NaN, but at least one, a bucket that was reset has their
    -- number, a minimum and a maximum that bound them all and that are among them, and a worst quality that
    -- none of them exceeds.
    pub add_all-reset-Summarises :
        (x : D × Quality) (xs : List (D × Quality))
        → All (λ (y : D × Quality). y.0 ≼ y.0) (x ∷ xs)
        → Summarises (add_all reset (x ∷ xs)) (x ∷ xs)
    unfolding add_all
    add_all-reset-Summarises (v, q) xs (num, nums) =
        let b = add_value reset v q in
        let next = add_value_next reset v q in
        let bmin : b.min_val ≡ v = (next.1 (count-reset D)).0 in
        let bmax : b.max_val ≡ v = (next.1 (count-reset D)).1 in
        let r =
          add_all-Bounds b xs (omega (arith, next.2)) (subst (λ m. m ≼ m) (sym bmin) num)
            (subst (λ m. m ≼ m) (sym bmax) num) nums in
        let f = add_all b xs in
        let worst' = subst (λ w. rank w ≤ rank f.worst_quality) next.3 r.worst_ge in
        record {
          count_eq = omega (arith, count-add_all b xs, next.2, count-reset D);
          above_min = (subst (λ m. f.min_val ≼ m) bmin r.lower, r.above_min);
          below_max = (subst (λ m. m ≼ f.max_val) bmax r.upper, r.below_max);
          min_reached =
              subst (λ m. OneOf f.min_val (m ∷ map (λ (x : D × Quality). x.0) xs)) bmin
                r.min_reached;
          max_reached =
              subst (λ m. OneOf f.max_val (m ∷ map (λ (x : D × Quality). x.0) xs)) bmax
                r.max_reached;
          worst_of =
              (omega (arith, worst', rank-worse (reset {D = D}).worst_quality q), r.worst_of);
        }
