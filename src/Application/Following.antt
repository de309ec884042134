-- ===== src/Application/Following.antt =====
-- How a registry follows the power draw, for the snapshot that src/apps/pulseport-service/main.cpp searches.
use pulseport.Registry.Keys.{KeysMatch, push_sample-KeysMatch}
use pulseport.Registry.Feed.{push_all}
use pulseport.Collectors.Recorded.{IsRegistered, push_sample-IsRegistered}
use pulseport.Application.{first_power}
use pulseport.Registry.{latest, Registry, push_sample, sampled, snapshot}
use pulseport.Prelude.{
  Bool-cases, List, [], ap, arith, false, inl, inr, some, str_eq, true, ◌∙◌, ◌∷◌, ◌≡◌,
}
use pulseport.Prelude.Int.{eqb_ℤ, pos}
use pulseport.Prelude.Double.{Double}
use pulseport.Prelude.Dict.{lookup, values}
use pulseport.Types.{MetricSample}

module _ {ℓ} {D : Type ℓ} ⦃d : Double D⦄ where
  -- What `latest` returns for the power draw is what the loop over the snapshot finds.
  pub first_power-snapshot :
      (r : Registry D) (s : MetricSample D)
      → KeysMatch r
      → latest r "power.current_w" ≡ some s
      → first_power (snapshot r) ≡ some s
  unfolding first_power snapshot sampled values latest lookup
  first_power-snapshot [] s all h = ground arith
  first_power-snapshot ((key, e) ∷ r) s (g, all) h =
      elim (Bool-cases (str_eq key "power.current_w")) [
        | inl same ↦
            let same_key : str_eq e.last_sample.key "power.current_w" ≡ true =
              ap (λ k. str_eq k "power.current_w") g ∙ same in
            elim (Bool-cases (eqb_ℤ e.last_sample.ts (pos 0))) [
              | inl never ↦ ground (arith, (rw (same, latest, never) at h))
              | inr sampled_once ↦
                  rw (sampled_once, same_key) (rw (same, latest, sampled_once) at h)
            ]
        | inr other ↦
            let other_key : str_eq e.last_sample.key "power.current_w" ≡ false =
              ap (λ k. str_eq k "power.current_w") g ∙ other in
            let later = first_power-snapshot r s all (rw (other, latest) at h) in
            elim (Bool-cases (eqb_ℤ e.last_sample.ts (pos 0))) [
              | inl never ↦ rw never later
              | inr sampled_once ↦ rw (sampled_once, other_key) later
            ]
      ]

  -- The registry follows the power draw.
  abbrev pub IsFollowing : Registry D → Type ℓ
  IsFollowing r = IsRegistered r "power.current_w" × KeysMatch r

  pub push_all-IsFollowing :
      (ss : List (MetricSample D)) (r : Registry D) → IsFollowing r → IsFollowing (push_all r ss)
  unfolding push_all
  push_all-IsFollowing [] r h = h
  push_all-IsFollowing (s ∷ ss) r (reg, all) =
      push_all-IsFollowing ss (push_sample r s)
        (push_sample-IsRegistered r s "power.current_w" reg, push_sample-KeysMatch r s all)
