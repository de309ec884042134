-- ===== src/Alerts/Check.antt =====
-- src/metrics/alert_evaluator.cpp: runs of violations, and what one check touches.
use pulseport.Storage.Writer.{write_event}
use pulseport.Storage.Engine.{Sqlite}
use pulseport.Alerts.{AlertState, judge, AlertEvaluator, check_threshold, state_of, calm}
use pulseport.Alerts.Spacing.{watch}
use pulseport.Prelude.{
  Bool, List, String, [], ap, arith, eq_iff, false, if◌then◌else◌, length, ltb, map, refl, str_eq,
  true, ℕ, ◌&&◌, ◌+◌, ◌<◌, ◌∷◌, ◌≡◌,
}
use pulseport.Prelude.Int.{ltb_ℤ, pos, ℤ, ◌*ℤ◌, ◌-ℤ◌}
use pulseport.Prelude.Double.{Double}
use pulseport.Prelude.Dict.{lookup_or-insert}

abbrev pub violations : List ℤ → List (ℤ × Bool)
violations = map (λ (t : ℤ). (t, true))

abbrev pub counted : ℕ → ℤ → AlertState
counted k last = record { violation_count = k; last_alert_ts = last }

judge-few :
    (cooldown now : ℤ) (n : ℕ) (st : AlertState)
    → st.violation_count + 1 < n
    → judge cooldown (pos n) now true st
      ≡ (record st { violation_count = st.violation_count + 1 }, false)
unfolding judge
judge-few cooldown now n st h =
    let there : ltb (st.violation_count + 1 + 0) (n + 0) ≡ true = ground arith in rw there refl

judge-enough :
    (cooldown now : ℤ) (n : ℕ) (st : AlertState)
    → st.violation_count + 1 ≡ n
    → ltb_ℤ (pos 0) st.last_alert_ts && ltb_ℤ (now -ℤ st.last_alert_ts) cooldown ≡ false
    → judge cooldown (pos n) now true st ≡ (counted 0 now, true)
unfolding judge
judge-enough cooldown now n st h over =
    let there : ltb (st.violation_count + 1 + 0) (n + 0) ≡ false = ground arith in
    rw (there, over) refl

watch-few :
    (cooldown : ℤ) (n : ℕ) (last : ℤ) (times : List ℤ)
    → length times < n
    → watch cooldown (pos n) (counted 0 last) (violations times) ≡ (counted (length times) last, [])
unfolding watch
watch-few cooldown n last [] h = refl
watch-few cooldown n last (t ∷ times) h =
    rw
      (
        watch-few cooldown n last times (omega arith),
        judge-few cooldown t n (counted (length times) last) (omega arith),
      )
      (ap (λ k. (counted k last, [])) (omega arith))

-- With `n` violations needed and the count at 0, a run of violations is silent before the `n`th check
-- and fires at it, if the cooldown is over there; the count is then 0 again.
pub watch-sustained :
    (cooldown now : ℤ) (n : ℕ) (last : ℤ) (times : List ℤ)
    → length times + 1 ≡ n
    → ltb_ℤ (pos 0) last && ltb_ℤ (now -ℤ last) cooldown ≡ false
    → let st = counted 0 last in
      (watch cooldown (pos n) st (violations times) ≡ (counted (length times) last, []))
      × (watch cooldown (pos n) st (violations (now ∷ times)) ≡ (counted 0 now, now ∷ []))
unfolding watch
watch-sustained cooldown now n last times h over =
    let silent = watch-few cooldown n last times (omega arith) in
    (silent, rw (silent, judge-enough cooldown now n (counted (length times) last) h over) refl)

module _ {ℓ} {D : Type ℓ} ⦃d : Double D⦄ where
  -- A check moves the state of its key by the judgement, leaves the states of all other keys and the
  -- thresholds, and writes its event exactly when the judgement fires.
  pub check_threshold-judge :
      {Db : Type ℓ} (e : Sqlite D Db) (format : String → D → String) (now : ℤ)
      (a : AlertEvaluator D) (key : String) (value threshold : D) (above : Bool) (sustained : ℤ)
      (category title_fmt : String) (db : Db)
      → let violated = if above then d.le threshold value else d.le value threshold in
        let after =
          judge (a.thresholds.cooldown_minutes *ℤ pos 60) sustained now violated (state_of a key) in
        let result =
          check_threshold e format now a key value threshold above sustained category title_fmt
            db in
        (state_of result.0 key ≡ after.0)
        × ((other : String) → str_eq key other ≡ false → state_of result.0 other ≡ state_of a other)
        × (result.0.thresholds ≡ a.thresholds)
        × (result.1 ≡ (
            if after.1
            then write_event e now "warn" category (format title_fmt value) "" db
            else db))
  unfolding check_threshold
  check_threshold-judge e format now a key value threshold above sustained category title_fmt db =
      let violated = if above then d.le threshold value else d.le value threshold in
      let after : AlertState × Bool =
        judge (a.thresholds.cooldown_minutes *ℤ pos 60) sustained now violated (state_of a key) in
      let same : str_eq key key ≡ true = ground (arith, eq_iff key key) in
      (
        rw (lookup_or-insert key key after.0 calm a.state, same) refl,
        λ other ne. rw (lookup_or-insert key other after.0 calm a.state, ne) refl,
        refl,
        refl,
      )
