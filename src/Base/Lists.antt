-- ===== src/Base/Lists.antt =====
-- Facts on lists that the parts share. Lengths are native numbers.
use Prim.Native.Nat.{ℕ, suc, ◌+◌}
use Prim.Native.String.{String}
use mathlib.Core.Path.{◌≡◌, sym, subst}
use mathlib.Core.Logic.{◌⊎◌, inl, inr}
use mathlib.Core.Bool.{Bool, false, ◌||◌}
use mathlib.Core.List.{List, [], ◌∷◌, ◌++◌}
use native.Mathlib.Omega.{arith}
use text.Mathlib.Text.{◌==◌}
use swagger_hub_controller.Base.Tests.{if◌then◌else◌}

-- A text stands in the list.
abbrev pub contains : String → List String → Bool
contains k [] = false
contains k (x ∷ xs) = x == k || contains k xs

-- No text stands in the list twice.
abbrev pub NodupNames : List String → Type 0
NodupNames [] = Unit
NodupNames (x ∷ xs) = (contains x xs ≡ false) × NodupNames xs

-- The item stands in the list.
abbrev pub Has : {A : Type 0} → A → List A → Type 0
Has x [] = ⊥
Has x (y ∷ xs) = (x ≡ y) ⊎ Has x xs

pub Has-append_left : {A : Type 0} (x : A) (l r : List A) → Has x r → Has x (l ++ r)
Has-append_left x [] r h = h
Has-append_left x (y ∷ l) r h = inr (Has-append_left x l r h)

module _ {ℓ} {A : Type ℓ} where
  abbrev pub length : List A → ℕ
  length [] = 0
  length (x ∷ xs) = suc (length xs)

  -- The items that pass a Boolean test, in their order.
  abbrev pub filter_by : (A → Bool) → List A → List A
  filter_by p [] = []
  filter_by p (x ∷ xs) = let rest = filter_by p xs in if p x then x ∷ rest else rest

  abbrev pub All {κ} : (A → Type κ) → List A → Type κ
  All P [] = Unit
  All P (x ∷ xs) = P x × All P xs

  pub All-append {κ} : (P : A → Type κ) (xs ys : List A) → All P xs → All P ys → All P (xs ++ ys)
  All-append P [] ys h k = k
  All-append P (x ∷ xs) ys h k = (h.0, All-append P xs ys h.1 k)

  pub length-append : (xs ys : List A) → length (xs ++ ys) ≡ length xs + length ys
  length-append [] ys = omega arith
  length-append (x ∷ xs) ys = omega (arith, length-append xs ys)

pub All-Has : {A : Type 0} (P : A → Type 0) (x : A) (l : List A) → All P l → Has x l → P x
All-Has P x [] h m = elim m [ ]
All-Has P x (y ∷ l) h (inl e) = subst P (sym e) h.0
All-Has P x (y ∷ l) h (inr m) = All-Has P x l h.1 m
