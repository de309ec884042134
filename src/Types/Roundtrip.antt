-- ===== src/Types/Roundtrip.antt =====
-- The text form of `Quality`, which the storage layer writes and reads back.
use pulseport.Prelude.{String, ◌≡◌, ◌≢◌, refl, eq_iff, arith}
use pulseport.Types.{Quality, quality_to_string, quality_from_string}

-- Every quality level is read back from the text that it is written as, and a text that is none of
-- the four reads as `Unknown`.
pub quality_from_string-quality_to_string :
    (q : Quality) (s : String)
    → (quality_from_string (quality_to_string q) ≡ q)
      × (((r : Quality) → s ≢ quality_to_string r) → quality_from_string s ≡ Quality.unknown)
unfolding quality_from_string quality_to_string
quality_from_string-quality_to_string q s = (back q, other)
  where
    back : (q : Quality) → quality_from_string (quality_to_string q) ≡ q
    back Quality.measured = refl
    back Quality.derived = refl
    back Quality.estimated = refl
    back Quality.unknown = refl

    other : ((r : Quality) → s ≢ quality_to_string r) → quality_from_string s ≡ Quality.unknown
    other h = ground (
      arith,
      h Quality.measured,
      h Quality.derived,
      h Quality.estimated,
      eq_iff s "measured",
      eq_iff s "derived",
      eq_iff s "estimated",
    )
