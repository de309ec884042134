-- ===== src/Alerts/Spacing.antt =====
-- src/metrics/alert_evaluator.cpp: the alerts of one key over a sequence of checks, and the time between them.
use mathlib.Core.Path.{subst}
use pulseport.Alerts.{AlertState, calm, judge}
use pulseport.Prelude.{
  All, Bool, Bool-cases, List, [], arith, false, if◌then◌else◌, inl, inr, refl, true, ◌&&◌, ◌+◌,
  ◌∙◌, ◌∷◌, ◌≡◌, ◌⊎◌,
}
use pulseport.Prelude.Int.{+ℤ_parts, -ℤ_parts, ltb_ℤ, pos, ℤ, ◌+ℤ◌, ◌-ℤ◌, ◌<ℤ◌, ◌≤ℤ◌}

-- The checks of one key, oldest last, each with its time and whether the threshold was violated: the state
-- after them, from a first state, and the times of the alerts that they fired, newest first.
unfoldable pub watch :
    (cooldown_s sustained : ℤ) → AlertState → List (ℤ × Bool) → AlertState × List ℤ
watch cooldown_s sustained st [] = (st, [])
watch cooldown_s sustained st ((now, violated) ∷ older) =
    let before = watch cooldown_s sustained st older in
    let after = judge cooldown_s sustained now violated before.0 in
    (after.0, if after.1 then now ∷ before.1 else before.1)

-- Each time is at least the cooldown after the next one of the list.
abbrev pub Spaced : ℤ → List ℤ → Type 0
Spaced cooldown [] = Unit
Spaced cooldown (t ∷ []) = Unit
Spaced cooldown (t ∷ u ∷ ts) = ((u +ℤ cooldown) ≤ℤ t) × Spaced cooldown (u ∷ ts)

-- The state remembers the newest alert, 0 where there is none, and the alerts are spaced.
abbrev Remembers : ℤ → AlertState × List ℤ → Type 0
Remembers cooldown (st, []) = st.last_alert_ts ≡ pos 0
Remembers cooldown (st, t ∷ ts) = (st.last_alert_ts ≡ t) × (pos 0 <ℤ t) × Spaced cooldown (t ∷ ts)

-- A check fires, with the cooldown over, or is silent and keeps the time of the last alert.
judge-cases :
    (cooldown sustained now : ℤ) (violated : Bool) (st : AlertState)
    → let after = judge cooldown sustained now violated st in
      ((after.1 ≡ true)
        × (after.0.last_alert_ts ≡ now)
        × (ltb_ℤ (pos 0) st.last_alert_ts && ltb_ℤ (now -ℤ st.last_alert_ts) cooldown ≡ false))
      ⊎ ((after.1 ≡ false) × (after.0.last_alert_ts ≡ st.last_alert_ts))
unfolding judge
judge-cases cooldown sustained now false st = inr (refl, refl)
judge-cases cooldown sustained now true st =
    elim (Bool-cases (ltb_ℤ (pos (st.violation_count + 1)) sustained)) [
      | inl few ↦ rw few (inr (refl, refl))
      | inr enough ↦
          rw enough
            (elim (Bool-cases
              (ltb_ℤ (pos 0) st.last_alert_ts && ltb_ℤ (now -ℤ st.last_alert_ts) cooldown)) [
                | inl soon ↦ rw soon (inr (refl, refl))
                | inr over ↦ rw over (inl (refl, refl, refl))
              ])
    ]

spaced_by :
    (cooldown now t : ℤ)
    → pos 0 <ℤ t
    → ltb_ℤ (pos 0) t && ltb_ℤ (now -ℤ t) cooldown ≡ false
    → (t +ℤ cooldown) ≤ℤ now
spaced_by cooldown now t h over = ground (arith, -ℤ_parts now t, +ℤ_parts t cooldown)

Remembers-Spaced :
    (cooldown : ℤ) (seen : AlertState × List ℤ) → Remembers cooldown seen → Spaced cooldown seen.1
Remembers-Spaced cooldown (st, []) r = tt
Remembers-Spaced cooldown (st, t ∷ ts) (is_t, t_pos, spaced) = spaced

judge-Remembers :
    (cooldown sustained now : ℤ) (violated : Bool) (st : AlertState) (ts : List ℤ)
    → pos 0 <ℤ now
    → Remembers cooldown (st, ts)
    → let after = judge cooldown sustained now violated st in
      Remembers cooldown (after.0, if after.1 then now ∷ ts else ts)
judge-Remembers cooldown sustained now violated st [] h r =
    elim (judge-cases cooldown sustained now violated st) [
      | inl (fires, last, over) ↦ rw fires (last, h, tt)
      | inr (silent, last) ↦ rw silent (last ∙ r)
    ]
judge-Remembers cooldown sustained now violated st (t ∷ ts) h (is_t, t_pos, spaced) =
    elim (judge-cases cooldown sustained now violated st) [
      | inl (fires, last, over) ↦
          let over_t : ltb_ℤ (pos 0) t && ltb_ℤ (now -ℤ t) cooldown ≡ false =
            subst (λ u. ltb_ℤ (pos 0) u && ltb_ℤ (now -ℤ u) cooldown ≡ false) is_t over in
          rw fires (last, h, (spaced_by cooldown now t t_pos over_t, spaced))
      | inr (silent, last) ↦ rw silent (last ∙ is_t, t_pos, spaced)
    ]

watch-Remembers :
    (cooldown sustained : ℤ) (checks : List (ℤ × Bool))
    → All (λ (c : ℤ × Bool). pos 0 <ℤ c.0) checks
    → Remembers cooldown (watch cooldown sustained calm checks)
unfolding watch
watch-Remembers cooldown sustained [] h = refl
watch-Remembers cooldown sustained ((now, violated) ∷ older) (h, hs) =
    let before = watch cooldown sustained calm older in
    judge-Remembers cooldown sustained now violated before.0 before.1 h
      (watch-Remembers cooldown sustained older hs)

-- The alerts of one key are spaced by at least the cooldown, for any checks at times after 1970.
pub watch-Spaced :
    (cooldown sustained : ℤ) (checks : List (ℤ × Bool))
    → All (λ (c : ℤ × Bool). pos 0 <ℤ c.0) checks
    → Spaced cooldown (watch cooldown sustained calm checks).1
watch-Spaced cooldown sustained checks h =
    Remembers-Spaced cooldown (watch cooldown sustained calm checks)
      (watch-Remembers cooldown sustained checks h)
