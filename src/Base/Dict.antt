-- ===== src/Base/Dict.antt =====
-- Go maps with text keys, as association lists.
use Prim.Native.String.{String}
use mathlib.Core.Path.{◌≡◌, refl}
use mathlib.Core.Option.{Option, none, some}
use mathlib.Core.List.{List, [], ◌∷◌}
use native.Mathlib.Omega.{arith}
use text.Mathlib.Text.{◌==◌}
use text.Mathlib.TextEquality.{eq_iff}
use swagger_hub_controller.Base.Tests.{if◌then◌else◌}

abbrev pub Dict {ℓ} : Type ℓ → Type ℓ
Dict V = List (String × V)

module _ {ℓ} {V : Type ℓ} where
  -- `value, ok := m[name]`
  unfoldable pub lookup : String → Dict V → Option V
  lookup name [] = none
  lookup name (entry ∷ m) = if entry.0 == name then some entry.1 else lookup name m

  -- `m[name] = value`: an entry is replaced in its place, a new one goes to the end.
  unfoldable pub insert : String → V → Dict V → Dict V
  insert name value [] = (name, value) ∷ []
  insert name value (entry ∷ m) =
      let rest = insert name value m in if entry.0 == name then (name, value) ∷ m else entry ∷ rest

  -- `delete(m, name)`
  unfoldable pub erase : String → Dict V → Dict V
  erase name [] = []
  erase name (entry ∷ m) = let rest = erase name m in if entry.0 == name then rest else entry ∷ rest

  pub lookup-insert :
      (name wanted : String) (value : V) (m : Dict V)
      → lookup wanted (insert name value m)
        ≡ (if name == wanted then some value else lookup wanted m)
  unfolding lookup insert
  lookup-insert name wanted value [] = refl
  lookup-insert name wanted value ((other, old) ∷ m) = ground (
    arith,
    lookup-insert name wanted value m,
    eq_iff other name,
    eq_iff other wanted,
    eq_iff name wanted,
  )

  pub lookup-erase :
      (name wanted : String) (m : Dict V)
      → lookup wanted (erase name m) ≡ (if name == wanted then none else lookup wanted m)
  unfolding lookup erase
  lookup-erase name wanted [] = ground arith
  lookup-erase name wanted ((other, old) ∷ m) = ground (
    arith,
    lookup-erase name wanted m,
    eq_iff other name,
    eq_iff other wanted,
    eq_iff name wanted,
  )
