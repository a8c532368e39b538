-- ===== src/Base/Dict.antt =====
-- Dictionaries with texts as keys, in insertion order.
use mathlib.Core.Logic.{◌⊎◌, inl, inr}
use text.Mathlib.TextPositions.{eq_refl}
use pcag.Base.Tests.{Bool-cases, if◌then◌else◌}
use Prim.Native.String.{String}
use mathlib.Core.Path.{◌≡◌, refl, ◌∙◌}
use mathlib.Core.Bool.{false}
use mathlib.Core.Option.{Option, none, some}
use mathlib.Core.List.{List, [], ◌∷◌}
use native.Mathlib.Omega.{arith}
use text.Mathlib.Text.{◌==◌ as str_eq}
use text.Mathlib.TextEquality.{eq_iff}

abbrev pub Dict {ℓ} : Type ℓ → Type ℓ
Dict A = List (String × A)

module _ {ℓ} {A : Type ℓ} where
  -- `d.get(key)`
  unfoldable pub get : String → Dict A → Option A
  get k [] = none
  get k ((j, v) ∷ d) = if str_eq j k then some v else get k d

  -- `d[key] = value`
  unfoldable pub put : String → A → Dict A → Dict A
  put k v [] = (k, v) ∷ []
  put k v ((j, w) ∷ d) = if str_eq j k then (j, v) ∷ d else (j, w) ∷ put k v d

  pub get-put :
      (k j : String) (v : A) (d : Dict A)
      → get j (put k v d) ≡ (if str_eq k j then some v else get j d)
  unfolding get put
  get-put k j v [] = refl
  get-put k j v ((i, w) ∷ d) = ground (arith, eq_iff k j, eq_iff i k, eq_iff i j, get-put k j v d)

  abbrev pub Has : String → Dict A → Type ℓ
  Has k d = (a : A) × (get k d ≡ some a)

  pub Has-put : (k j : String) (v : A) (d : Dict A) → Has j d → Has j (put k v d)
  Has-put k j v d h = elim (Bool-cases (str_eq k j)) [
    | inl e ↦ (v, get-put k j v d ∙ rw e refl)
    | inr e ↦ (h.0, get-put k j v d ∙ rw e h.1)
  ]

  pub Has-put_self : (k : String) (v : A) (d : Dict A) → Has k (put k v d)
  Has-put_self k v d = (v, get-put k k v d ∙ rw (eq_refl k) refl)

  -- What stands at a key after a write was written there, or stood there.
  pub get-put_cases :
      (k j : String) (v x : A) (d : Dict A)
      → get j (put k v d) ≡ some x
      → ((k ≡ j) × (v ≡ x)) ⊎ (get j d ≡ some x)
  get-put_cases k j v x d h = elim (Bool-cases (str_eq k j)) [
    | inl e ↦ inl ((eq_iff k j).0 e, ground (arith, get-put k j v d, e, h))
    | inr e ↦ inr (ground (arith, get-put k j v d, e, h))
  ]

  pub get-put_other :
      (k j : String) (v : A) (d : Dict A) → str_eq k j ≡ false → get j (put k v d) ≡ get j d
  get-put_other k j v d e = get-put k j v d ∙ rw e refl
