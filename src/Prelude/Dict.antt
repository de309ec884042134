-- ===== src/Prelude/Dict.antt =====
-- `std::unordered_map<std::string, V>` as an association list. The order of the list stands for the
-- iteration order, which C++ leaves open.
use Prim.Native.String.{String}
use mathlib.Core.Path.{◌≡◌, refl}
use mathlib.Core.Bool.{false}
use mathlib.Core.Option.{Option, none, some}
use mathlib.Core.List.{List, [], ◌∷◌}
use text.Mathlib.Text.{◌==◌ as str_eq}
use text.Mathlib.TextEquality.{eq_iff}
use native.Mathlib.Omega.{arith}
use mathlib.Core.Logic.{inl, inr}
use pulseport.Prelude.Tests.{if◌then◌else◌, Bool-cases}

abbrev pub Dict {ℓ} : Type ℓ → Type ℓ
Dict V = List (String × V)

module _ {ℓ} {V : Type ℓ} where
  unfoldable pub lookup : String → Dict V → Option V
  lookup k [] = none
  lookup k ((j, v) ∷ m) = if str_eq j k then some v else lookup k m

  -- `m[k] = v`: overwrites, or adds the key.
  unfoldable pub insert : String → V → Dict V → Dict V
  insert k v [] = (k, v) ∷ []
  insert k v ((j, w) ∷ m) = if str_eq j k then (j, v) ∷ m else (j, w) ∷ insert k v m

  unfoldable pub lookup_or : String → V → Dict V → V
  unfolding lookup
  lookup_or k v m = elim (lookup k m) [ none ↦ v | some w ↦ w ]

  -- The values, in the order of iteration.
  unfoldable pub values : Dict V → List V
  values [] = []
  values ((k, v) ∷ m) = v ∷ values m

  pub lookup-insert :
      (k j : String) (v : V) (m : Dict V)
      → lookup j (insert k v m) ≡ (if str_eq k j then some v else lookup j m)
  unfolding lookup insert
  lookup-insert k j v [] = refl
  lookup-insert k j v ((key, old) ∷ rest) =
      let later = lookup-insert k j v rest in
      ground (arith, later, eq_iff key k, eq_iff key j, eq_iff k j)

  pub lookup-insert_self : (k : String) (v : V) (m : Dict V) → lookup k (insert k v m) ≡ some v
  lookup-insert_self k v m = ground (arith, lookup-insert k k v m, eq_iff k k)

  pub lookup_or-insert :
      (k j : String) (v w : V) (m : Dict V)
      → lookup_or j w (insert k v m) ≡ (if str_eq k j then v else lookup_or j w m)
  unfolding lookup_or
  lookup_or-insert k j v w m = rw (lookup-insert k j v m, lookup_or) (ground arith)

  -- No entry has the key.
  abbrev pub Lacks : String → Dict V → Type 0
  Lacks k [] = Unit
  Lacks k ((j, v) ∷ m) = (str_eq j k ≡ false) × Lacks k m

  -- Each key stands once, as in every `unordered_map`.
  abbrev pub IsMap : Dict V → Type 0
  IsMap [] = Unit
  IsMap ((k, v) ∷ m) = Lacks k m × IsMap m

  Lacks-insert :
      (j k : String) (v : V) (m : Dict V) → Lacks j m → str_eq k j ≡ false → Lacks j (insert k v m)
  unfolding insert
  Lacks-insert j k v [] h ne = (ne, tt)
  Lacks-insert j k v ((i, w) ∷ m) (ni, h) ne = elim (Bool-cases (str_eq i k)) [
    | inl same ↦ rw same (ni, h)
    | inr other ↦ rw other (ni, Lacks-insert j k v m h ne)
  ]

  pub insert-IsMap : (k : String) (v : V) (m : Dict V) → IsMap m → IsMap (insert k v m)
  unfolding insert
  insert-IsMap k v [] h = (tt, tt)
  insert-IsMap k v ((i, w) ∷ m) (lacks, h) = elim (Bool-cases (str_eq i k)) [
    | inl same ↦ rw same (lacks, h)
    | inr other ↦
        rw other (
          Lacks-insert i k v m lacks (ground (arith, eq_iff i k, eq_iff k i)),
          insert-IsMap k v m h,
        )
  ]
