-- ===== src/Config/Ints.antt =====
-- include/pulseport/config.h: the fields of type `int`, which stay values of 32 bits.
use mathlib.Core.Path.{subst}
use pulseport.Config.Limits.{Between, Kept}
use pulseport.Config.{
  Config, Value, accept_int, apply_int, change_all, changes, get_int, int32_of, is_some,
}
use pulseport.Prelude.{
  All, Bool-cases, List, Option, Option-cases, String, [], arith, inl, inr, ltb, none, refl, some,
  true, ℕ, ◌%◌, ◌&&◌, ◌<◌, ◌>>=◌, ◌^◌, ◌∷◌, ◌≡◌, ◌≤◌,
}
use pulseport.Prelude.Int.{leb_ℤ, negsuc, pos, ℤ}
use pulseport.Prelude.Double.{Double}
use pulseport.Prelude.Dict.{Dict, lookup}

abbrev pub IsInt : ℤ → Type 0
IsInt v = int32_of v ≡ v

small-IsInt : (high : ℕ) (v : ℤ) → high < 2 ^ 31 → Between (pos 1) (pos high) v → IsInt v
unfolding int32_of
small-IsInt high (negsuc n) h fits = ground (arith, fits)
small-IsInt high (pos n) h fits =
    let le : n ≤ high = ground (arith, fits) in
    let same : n % 2 ^ 32 ≡ n = omega (arith, le) in
    let low : ltb n (2 ^ 31) ≡ true = ground (arith, le) in rw (same, low) refl

accept_int-IsInt :
    (high : ℕ) (target : ℤ) (o : Option ℤ)
    → high < 2 ^ 31
    → IsInt target
    → Kept IsInt (accept_int (pos 1) (pos high) target o)
unfolding accept_int
accept_int-IsInt high target none h t = tt
accept_int-IsInt high target (some v) h t =
    elim (Bool-cases (leb_ℤ (pos 1) v && leb_ℤ v (pos high))) [
      | inl fits ↦ rw fits (small-IsInt high v h fits)
      | inr out ↦ rw out t
    ]

module _ {ℓ} {D : Type ℓ} ⦃d : Double D⦄ where
  -- Every field of type `int` has a value of 32 bits.
  abbrev pub HasInts : Config D → Type 0
  HasInts c =
      IsInt c.port
      × IsInt c.retention_1m_days
      × IsInt c.retention_15m_days
      × IsInt c.retention_daily_days
      × IsInt c.retention_events_days
      × IsInt c.sample_interval_ms
      × IsInt c.process_interval_ms
      × IsInt c.thermal_interval_ms
      × IsInt c.aggregation_interval_s
      × IsInt c.alert_cpu_sustained_min
      × IsInt c.alert_mem_sustained_min
      × IsInt c.alert_cooldown_minutes

  apply_int-IsInt :
      (truncate : D → ℤ) (body : Dict (Value D)) (key : String) (high : ℕ) (target : ℤ)
      → high < 2 ^ 31
      → IsInt target
      → Kept IsInt (apply_int truncate body key (pos 1) (pos high) target)
  unfolding apply_int
  apply_int-IsInt truncate body key high target h t =
      elim (Bool-cases (is_some (lookup key body))) [
        | inl there ↦ rw there (accept_int-IsInt high target (get_int truncate body key target) h t)
        | inr missing ↦ rw missing t
      ]

  assigned_int :
      (o : Option ℤ) (assign : ℤ → Config D)
      → Kept IsInt o
      → ((v : ℤ) → IsInt v → HasInts (assign v))
      → Kept HasInts (o >>= λ v. some (assign v))
  assigned_int none assign k h = tt
  assigned_int (some v) assign k h = h v k

  assigned_double :
      (o : Option D) (assign : D → Config D)
      → ((v : D) → HasInts (assign v))
      → Kept HasInts (o >>= λ v. some (assign v))
  assigned_double none assign h = tt
  assigned_double (some v) assign h = h v

  abbrev KeepsInts : (Config D → Option (Config D)) → Type ℓ
  KeepsInts f = (c : Config D) → HasInts c → Kept HasInts (f c)

  change_all-KeepsInts :
      (fs : List (Config D → Option (Config D)))
      → All KeepsInts fs
      → (c : Config D) → HasInts c
      → HasInts (change_all fs c).1
  unfolding change_all
  change_all-KeepsInts [] ks c h = h
  change_all-KeepsInts (f ∷ fs) (k, ks) c h = elim (Option-cases (f c)) [
    | inl threw ↦ rw (change_all, threw) h
    | inr (after, made) ↦
        rw (change_all, made)
          (change_all-KeepsInts fs ks after
            (subst (λ (o : Option (Config D)). Kept HasInts o) made (k c h)))
  ]

  pub change_all-HasInts :
      (truncate : D → ℤ) (body : Dict (Value D)) (c : Config D)
      → HasInts c
      → HasInts (change_all (changes truncate body) c).1
  unfolding changes
  change_all-HasInts truncate body c h =
      change_all-KeepsInts (changes truncate body)
        (
          (λ c h. assigned_double _ (λ v. record c { alert_cpu_high_pct = v }) (λ v. h)),
          (
            (λ c h.
                assigned_int _ (λ v. record c { alert_cpu_sustained_min = v })
                  (apply_int-IsInt truncate body "alert_cpu_sustained_min" 60
                    c.alert_cpu_sustained_min (omega arith) h.9)
                  (λ v fits. (h.0, h.1, h.2, h.3, h.4, h.5, h.6, h.7, h.8, fits, h.10, h.11))),
            (
              (λ c h. assigned_double _ (λ v. record c { alert_mem_high_pct = v }) (λ v. h)),
              (
                (λ c h.
                    assigned_int _ (λ v. record c { alert_mem_sustained_min = v })
                      (apply_int-IsInt truncate body "alert_mem_sustained_min" 60
                        c.alert_mem_sustained_min (omega arith) h.10)
                      (λ v fits. (h.0, h.1, h.2, h.3, h.4, h.5, h.6, h.7, h.8, h.9, fits, h.11))),
                (
                  (λ c h. assigned_double _ (λ v. record c { alert_battery_low_pct = v }) (λ v. h)),
                  (
                    (λ c h. assigned_double _ (λ v. record c { alert_power_high_w = v }) (λ v. h)),
                    (
                      (λ c h.
                          assigned_int _ (λ v. record c { alert_cooldown_minutes = v })
                            (apply_int-IsInt truncate body "alert_cooldown_minutes" 1440
                              c.alert_cooldown_minutes (omega arith) h.11)
                            (λ v fits.
                              (h.0, h.1, h.2, h.3, h.4, h.5, h.6, h.7, h.8, h.9, h.10, fits))),
                      (
                        (λ c h.
                            assigned_int _ (λ v. record c { retention_1m_days = v })
                              (apply_int-IsInt truncate body "retention_1m_days" 3650
                                c.retention_1m_days (omega arith) h.1)
                              (λ v fits.
                                (h.0, fits, h.2, h.3, h.4, h.5, h.6, h.7, h.8, h.9, h.10, h.11))),
                        (
                          (λ c h.
                              assigned_int _ (λ v. record c { retention_15m_days = v })
                                (apply_int-IsInt truncate body "retention_15m_days" 3650
                                  c.retention_15m_days (omega arith) h.2)
                                (λ v fits.
                                  (h.0, h.1, fits, h.3, h.4, h.5, h.6, h.7, h.8, h.9, h.10, h.11))),
                          (
                            (λ c h.
                                assigned_int _ (λ v. record c { retention_daily_days = v })
                                  (apply_int-IsInt truncate body "retention_daily_days" 3650
                                    c.retention_daily_days (omega arith) h.3)
                                  (λ v fits. (
                                    h.0, h.1, h.2, fits, h.4, h.5, h.6, h.7, h.8, h.9, h.10, h.11,
                                  ))),
                            (
                              (λ c h.
                                  assigned_int _ (λ v. record c { retention_events_days = v })
                                    (apply_int-IsInt truncate body "retention_events_days" 3650
                                      c.retention_events_days (omega arith) h.4)
                                    (λ v fits. (
                                      h.0, h.1, h.2, h.3, fits, h.5, h.6, h.7, h.8, h.9, h.10, h.11,
                                    ))),
                              tt,
                            ),
                          ),
                        ),
                      ),
                    ),
                  ),
                ),
              ),
            ),
          ),
        )
        c h
