-- ===== src/Config/Limits.antt =====
-- POST /api/v1/config of src/server/http_server.cpp: the ranges of the settings.
use mathlib.Core.Path.{subst}
use pulseport.Config.{
  Config, Value, apply_int, get_int, accept_double, accept_int, apply_double, change_all, changes,
  get_double, is_some,
}
use pulseport.Prelude.{
  All, Bool-cases, List, Option, Option-cases, String, [], inl, inr, none, some, true, ◌&&◌, ◌>>=◌,
  ◌∷◌, ◌≡◌,
}
use pulseport.Prelude.Int.{leb_ℤ, pos, ℤ}
use pulseport.Prelude.Double.{Double}
use pulseport.Prelude.Dict.{Dict, lookup}

abbrev pub Between : ℤ → ℤ → ℤ → Type 0
Between low high v = leb_ℤ low v && leb_ℤ v high ≡ true

-- A predicate on a result, if there is one.
abbrev pub Kept {ℓ κ} : {A : Type ℓ} → (A → Type κ) → Option A → Type κ
Kept P none = Unit
Kept P (some a) = P a

accept_int-Kept :
    (low high target : ℤ) (o : Option ℤ)
    → Between low high target
    → Kept (Between low high) (accept_int low high target o)
unfolding accept_int
accept_int-Kept low high target none h = tt
accept_int-Kept low high target (some v) h = elim (Bool-cases (leb_ℤ low v && leb_ℤ v high)) [
  | inl fits ↦ rw fits fits
  | inr out ↦ rw out h
]

module _ {ℓ} {D : Type ℓ} ⦃d : Double D⦄ where
  abbrev pub DoubleBetween : ℤ → ℤ → D → Type 0
  DoubleBetween low high v = d.le (d.from_int low) v && d.le v (d.from_int high) ≡ true

  -- The ranges of the settings.
  abbrev pub WithinLimits : Config D → Type 0
  WithinLimits c =
      DoubleBetween (pos 1) (pos 100) c.alert_cpu_high_pct
      × Between (pos 1) (pos 60) c.alert_cpu_sustained_min
      × DoubleBetween (pos 1) (pos 100) c.alert_mem_high_pct
      × Between (pos 1) (pos 60) c.alert_mem_sustained_min
      × DoubleBetween (pos 1) (pos 50) c.alert_battery_low_pct
      × DoubleBetween (pos 1) (pos 1000) c.alert_power_high_w
      × Between (pos 1) (pos 1440) c.alert_cooldown_minutes
      × Between (pos 1) (pos 3650) c.retention_1m_days
      × Between (pos 1) (pos 3650) c.retention_15m_days
      × Between (pos 1) (pos 3650) c.retention_daily_days
      × Between (pos 1) (pos 3650) c.retention_events_days

  accept_double-Kept :
      (low high : ℤ) (target : D) (o : Option D)
      → DoubleBetween low high target
      → Kept (DoubleBetween low high) (accept_double low high target o)
  unfolding accept_double
  accept_double-Kept low high target none h = tt
  accept_double-Kept low high target (some v) h =
      elim (Bool-cases (d.le (d.from_int low) v && d.le v (d.from_int high))) [
        | inl fits ↦ rw fits fits
        | inr out ↦ rw out h
      ]

  apply_int-Kept :
      (truncate : D → ℤ) (body : Dict (Value D)) (key : String) (low high target : ℤ)
      → Between low high target
      → Kept (Between low high) (apply_int truncate body key low high target)
  unfolding apply_int
  apply_int-Kept truncate body key low high target h =
      elim (Bool-cases (is_some (lookup key body))) [
        | inl there ↦
            rw there (accept_int-Kept low high target (get_int truncate body key target) h)
        | inr missing ↦ rw missing h
      ]

  apply_double-Kept :
      (body : Dict (Value D)) (key : String) (low high : ℤ) (target : D)
      → DoubleBetween low high target
      → Kept (DoubleBetween low high) (apply_double body key low high target)
  unfolding apply_double
  apply_double-Kept body key low high target h = elim (Bool-cases (is_some (lookup key body))) [
    | inl there ↦ rw there (accept_double-Kept low high target (get_double body key target) h)
    | inr missing ↦ rw missing h
  ]

  assigned-Kept {κ} :
      {A : Type κ} (Q : A → Type 0) (o : Option A) (assign : A → Config D)
      → Kept Q o
      → ((v : A) → Q v → WithinLimits (assign v))
      → Kept WithinLimits (o >>= λ v. some (assign v))
  assigned-Kept Q none assign k h = tt
  assigned-Kept Q (some v) assign k h = h v k

  abbrev pub Keeps : (Config D → Option (Config D)) → Type ℓ
  Keeps f = (c : Config D) → WithinLimits c → Kept WithinLimits (f c)

  change_all-Keeps :
      (fs : List (Config D → Option (Config D)))
      → All Keeps fs
      → (c : Config D) → WithinLimits c
      → WithinLimits (change_all fs c).1
  unfolding change_all
  change_all-Keeps [] ks c h = h
  change_all-Keeps (f ∷ fs) (k, ks) c h = elim (Option-cases (f c)) [
    | inl threw ↦ rw (change_all, threw) h
    | inr (after, made) ↦
        rw (change_all, made)
          (change_all-Keeps fs ks after
            (subst (λ (o : Option (Config D)). Kept WithinLimits o) made (k c h)))
  ]

  -- Whatever the request holds, and also where one of its values throws, POST /api/v1/config leaves every
  -- setting that it can change in its range, if it was in its range before.
  pub change_all-WithinLimits :
      (truncate : D → ℤ) (body : Dict (Value D)) (c : Config D)
      → WithinLimits c
      → WithinLimits (change_all (changes truncate body) c).1
  unfolding changes
  change_all-WithinLimits truncate body c h =
      change_all-Keeps (changes truncate body)
        ((
          (λ c h.
              assigned-Kept (DoubleBetween (pos 1) (pos 100))
                (apply_double body "alert_cpu_high_pct" (pos 1) (pos 100) c.alert_cpu_high_pct)
                (λ v. record c { alert_cpu_high_pct = v })
                (apply_double-Kept body "alert_cpu_high_pct" (pos 1) (pos 100) c.alert_cpu_high_pct
                  h.0)
                (λ v fits. (fits, h.1, h.2, h.3, h.4, h.5, h.6, h.7, h.8, h.9, h.10))),
          (
            (λ c h.
                assigned-Kept (Between (pos 1) (pos 60))
                  (apply_int truncate body "alert_cpu_sustained_min" (pos 1) (pos 60)
                    c.alert_cpu_sustained_min)
                  (λ v. record c { alert_cpu_sustained_min = v })
                  (apply_int-Kept truncate body "alert_cpu_sustained_min" (pos 1) (pos 60)
                    c.alert_cpu_sustained_min h.1)
                  (λ v fits. (h.0, fits, h.2, h.3, h.4, h.5, h.6, h.7, h.8, h.9, h.10))),
            (
              (λ c h.
                  assigned-Kept (DoubleBetween (pos 1) (pos 100))
                    (apply_double body "alert_mem_high_pct" (pos 1) (pos 100) c.alert_mem_high_pct)
                    (λ v. record c { alert_mem_high_pct = v })
                    (apply_double-Kept body "alert_mem_high_pct" (pos 1) (pos 100)
                      c.alert_mem_high_pct h.2)
                    (λ v fits. (h.0, h.1, fits, h.3, h.4, h.5, h.6, h.7, h.8, h.9, h.10))),
              (
                (λ c h.
                    assigned-Kept (Between (pos 1) (pos 60))
                      (apply_int truncate body "alert_mem_sustained_min" (pos 1) (pos 60)
                        c.alert_mem_sustained_min)
                      (λ v. record c { alert_mem_sustained_min = v })
                      (apply_int-Kept truncate body "alert_mem_sustained_min" (pos 1) (pos 60)
                        c.alert_mem_sustained_min h.3)
                      (λ v fits. (h.0, h.1, h.2, fits, h.4, h.5, h.6, h.7, h.8, h.9, h.10))),
                (
                  (λ c h.
                      assigned-Kept (DoubleBetween (pos 1) (pos 50))
                        (apply_double body "alert_battery_low_pct" (pos 1) (pos 50)
                          c.alert_battery_low_pct)
                        (λ v. record c { alert_battery_low_pct = v })
                        (apply_double-Kept body "alert_battery_low_pct" (pos 1) (pos 50)
                          c.alert_battery_low_pct h.4)
                        (λ v fits. (h.0, h.1, h.2, h.3, fits, h.5, h.6, h.7, h.8, h.9, h.10))),
                  (
                    (λ c h.
                        assigned-Kept (DoubleBetween (pos 1) (pos 1000))
                          (apply_double body "alert_power_high_w" (pos 1) (pos 1000)
                            c.alert_power_high_w)
                          (λ v. record c { alert_power_high_w = v })
                          (apply_double-Kept body "alert_power_high_w" (pos 1) (pos 1000)
                            c.alert_power_high_w h.5)
                          (λ v fits. (h.0, h.1, h.2, h.3, h.4, fits, h.6, h.7, h.8, h.9, h.10))),
                    (
                      (λ c h.
                          assigned-Kept (Between (pos 1) (pos 1440))
                            (apply_int truncate body "alert_cooldown_minutes" (pos 1) (pos 1440)
                              c.alert_cooldown_minutes)
                            (λ v. record c { alert_cooldown_minutes = v })
                            (apply_int-Kept truncate body "alert_cooldown_minutes" (pos 1)
                              (pos 1440) c.alert_cooldown_minutes h.6)
                            (λ v fits. (h.0, h.1, h.2, h.3, h.4, h.5, fits, h.7, h.8, h.9, h.10))),
                      (
                        (λ c h.
                            assigned-Kept (Between (pos 1) (pos 3650))
                              (apply_int truncate body "retention_1m_days" (pos 1) (pos 3650)
                                c.retention_1m_days)
                              (λ v. record c { retention_1m_days = v })
                              (apply_int-Kept truncate body "retention_1m_days" (pos 1) (pos 3650)
                                c.retention_1m_days h.7)
                              (λ v fits.
                                (h.0, h.1, h.2, h.3, h.4, h.5, h.6, fits, h.8, h.9, h.10))),
                        (
                          (λ c h.
                              assigned-Kept (Between (pos 1) (pos 3650))
                                (apply_int truncate body "retention_15m_days" (pos 1) (pos 3650)
                                  c.retention_15m_days)
                                (λ v. record c { retention_15m_days = v })
                                (apply_int-Kept truncate body "retention_15m_days" (pos 1)
                                  (pos 3650) c.retention_15m_days h.8)
                                (λ v fits.
                                  (h.0, h.1, h.2, h.3, h.4, h.5, h.6, h.7, fits, h.9, h.10))),
                          (
                            (λ c h.
                                assigned-Kept (Between (pos 1) (pos 3650))
                                  (apply_int truncate body "retention_daily_days" (pos 1) (pos 3650)
                                    c.retention_daily_days)
                                  (λ v. record c { retention_daily_days = v })
                                  (apply_int-Kept truncate body "retention_daily_days" (pos 1)
                                    (pos 3650) c.retention_daily_days h.9)
                                  (λ v fits.
                                    (h.0, h.1, h.2, h.3, h.4, h.5, h.6, h.7, h.8, fits, h.10))),
                            ((
                              λ c h.
                                  assigned-Kept (Between (pos 1) (pos 3650))
                                    (apply_int truncate body "retention_events_days" (pos 1)
                                      (pos 3650) c.retention_events_days)
                                    (λ v. record c { retention_events_days = v })
                                    (apply_int-Kept truncate body "retention_events_days" (pos 1)
                                      (pos 3650) c.retention_events_days h.10)
                                    (λ v fits.
                                      (h.0, h.1, h.2, h.3, h.4, h.5, h.6, h.7, h.8, h.9, fits)),
                              tt,
                            )),
                          ),
                        ),
                      ),
                    ),
                  ),
                ),
              ),
            ),
          ),
        ))
        c h
