-- ===== src/Base/Sort.antt =====
-- `slices.SortFunc` by name and namespace. Go sorts short lists by insertion; for any length it
-- promises an ascending rearrangement, which is unique where no two items share name and namespace
-- (`sort_func-perm_eq`).
use Prim.Native.Nat.{ℕ, Ordering, compare as compare_ℕ}
use Prim.Native.Char.{code}
use Prim.Native.String.{String, compare, then as cmp_or}
use Prim.Native.String.compare
use mathlib.Core.Path.{◌≡◌, refl, ◌∙◌, sym, ap}
use mathlib.Core.Logic.{◌⊎◌, inl, inr, ∥∥₁_elim}
use mathlib.Core.Bool.{true, false}
use mathlib.Core.List.{
  List, [], ◌∷◌, ◌++◌, Perm, Permᴰ, Pairwise, perm_middle, append-nil, mem-cons_self,
  forall_mem-cons, Mem, Pairwise-singleton, is_set as list_set,
}
use mathlib.Core.List.Perm
use mathlib.Core.List.Permᴰ
use native.Mathlib.Omega.{arith}
use text.Mathlib.Text.{is_lt}
use text.Mathlib.TextEquality.{path_by_compare}
use swagger_hub_controller.Base.Lists.{All}
use swagger_hub_controller.Base.Tests.{if◌then◌else◌, Bool-cases}

abbrev flip : Ordering → Ordering
flip Ordering.lt = Ordering.gt
flip Ordering.eq = Ordering.eq
flip Ordering.gt = Ordering.lt

compare_ℕ_swap : (m n : ℕ) → compare_ℕ n m ≡ flip (compare_ℕ m n)
compare_ℕ_swap m n = ground arith

flip-then : (a b : Ordering) → cmp_or (flip a) (flip b) ≡ flip (cmp_or a b)
flip-then Ordering.lt b = refl
flip-then Ordering.eq b = refl
flip-then Ordering.gt b = refl

compare_ℕ_trans :
    (a b c : ℕ) (x y z : Ordering)
    → (x ≡ Ordering.lt → y ≡ Ordering.lt → z ≡ Ordering.lt)
    → cmp_or (compare_ℕ a b) x ≡ Ordering.lt
    → cmp_or (compare_ℕ b c) y ≡ Ordering.lt
    → cmp_or (compare_ℕ a c) z ≡ Ordering.lt
compare_ℕ_trans a b c x y z h p q = ground arith

compare_swap : (s t : String) → compare t s ≡ flip (compare s t)
compare_swap String.[] String.[] = refl
compare_swap String.[] (String.◌∷◌ d t) = rw (compare.nil-cons d t, compare.cons-nil d t)
compare_swap (String.◌∷◌ c s) String.[] = rw (compare.nil-cons c s, compare.cons-nil c s)
compare_swap (String.◌∷◌ c s) (String.◌∷◌ d t) =
    rw
      (
        compare.cons-cons d c t s,
        compare.cons-cons c d s t,
        compare_ℕ_swap (code c) (code d),
        compare_swap s t,
      )
      (flip-then _ _)

compare_trans :
    (s t u : String)
    → compare s t ≡ Ordering.lt
    → compare t u ≡ Ordering.lt
    → compare s u ≡ Ordering.lt
compare_trans String.[] String.[] u p q = q
compare_trans String.[] (String.◌∷◌ d t) (String.◌∷◌ e u) p q = compare.nil-cons e u
compare_trans String.[] (String.◌∷◌ d t) String.[] p q = cc (compare.cons-nil d t)
compare_trans (String.◌∷◌ c s) (String.◌∷◌ d t) String.[] p q = cc (compare.cons-nil d t)
compare_trans (String.◌∷◌ c s) String.[] u p q = cc (compare.cons-nil c s)
compare_trans (String.◌∷◌ c s) (String.◌∷◌ d t) (String.◌∷◌ e u) p q =
    rw (compare.cons-cons c e s u) (
      compare_ℕ_trans (code c) (code d) (code e) _ _ _ (compare_trans s t u)
        (sym (compare.cons-cons c d s t) ∙ p) (sym (compare.cons-cons d e t u) ∙ q))

compare_eq : (s t : String) → compare s t ≡ Ordering.eq → s ≡ t
compare_eq = path_by_compare

-- What the comparison functions of the controllers read of a resource.
pub record Named {ℓ} (A : Type ℓ) : Type ℓ where
  pub name_of : A → String
  pub namespace_of : A → String

module _ {ℓ} {A : Type ℓ} ⦃n : Named A⦄ where
  -- `cmp.Or(cmp.Compare(a.Name, b.Name), cmp.Compare(a.Namespace, b.Namespace))`
  unfoldable pub compare_names : A → A → Ordering
  compare_names a b =
      cmp_or (compare (n.name_of a) (n.name_of b)) (compare (n.namespace_of a) (n.namespace_of b))

  -- One round of the insertion sort: the new item moves in front of all that are greater.
  insert_sorted : A → List A → List A
  insert_sorted x [] = x ∷ []
  insert_sorted x (y ∷ ys) =
      if is_lt (compare_names x y) then x ∷ y ∷ ys else y ∷ insert_sorted x ys

  sort_onto : List A → List A → List A
  sort_onto out [] = out
  sort_onto out (x ∷ xs) = sort_onto (insert_sorted x out) xs

  -- `slices.SortFunc`
  unfoldable pub sort_func : List A → List A
  unfolding compare_names insert_sorted sort_onto
  sort_func = sort_onto []

  -- Two resources with different names or namespaces.
  abbrev pub Apart : A → A → Type 0
  Apart a b = ((n.name_of a ≡ n.name_of b) × (n.namespace_of a ≡ n.namespace_of b)) → ⊥

  -- `y` does not stand before `x` in the order.
  abbrev InOrder : A → A → Type 0
  InOrder x y = is_lt (compare_names y x) ≡ false

  -- No later item stands before an earlier one.
  abbrev IsOrdered : List A → Type ℓ
  IsOrdered = Pairwise InOrder

  before_trans :
      (x y z : A)
      → is_lt (compare_names x y) ≡ true
      → is_lt (compare_names y z) ≡ true
      → is_lt (compare_names x z) ≡ true
  unfolding compare_names
  before_trans x y z p q = ground (
    arith,
    compare_trans (n.name_of x) (n.name_of y) (n.name_of z),
    compare_trans (n.namespace_of x) (n.namespace_of y) (n.namespace_of z),
    compare_eq (n.name_of x) (n.name_of y),
    compare_eq (n.name_of y) (n.name_of z),
  )

  before_swap : (x y : A) → compare_names y x ≡ flip (compare_names x y)
  unfolding compare_names
  before_swap x y =
      rw
        (
          compare_swap (n.name_of x) (n.name_of y),
          compare_swap (n.namespace_of x) (n.namespace_of y),
        )
        (flip-then _ _)

  before_total :
      (x y : A)
      → Apart x y
      → (is_lt (compare_names x y) ≡ true) ⊎ (is_lt (compare_names y x) ≡ true)
  unfolding compare_names
  before_total x y h = ground (
    arith,
    before_swap x y,
    compare_eq (n.name_of x) (n.name_of y),
    compare_eq (n.namespace_of x) (n.namespace_of y),
  )

  insert_sorted_comm_lt :
      (x y : A) (l : List A)
      → is_lt (compare_names x y) ≡ true
      → insert_sorted x (insert_sorted y l) ≡ insert_sorted y (insert_sorted x l)
  unfolding insert_sorted
  insert_sorted_comm_lt x y [] h = ground (arith, before_swap x y)
  insert_sorted_comm_lt x y (z ∷ l) h =
      ground (arith, before_swap x y, before_trans x y z, insert_sorted_comm_lt x y l h)

  insert_sorted_comm :
      (x y : A) (l : List A)
      → Apart x y
      → insert_sorted x (insert_sorted y l) ≡ insert_sorted y (insert_sorted x l)
  insert_sorted_comm x y l h = elim (before_total x y h) [
    | inl p ↦ insert_sorted_comm_lt x y l p
    | inr p ↦ sym (insert_sorted_comm_lt y x l p)
  ]

  Apart-prop : (a b : A) → IsProp (Apart a b)
  Apart-prop a b = hlevel

  Apart-symm : (a b : A) → Apart a b → Apart b a
  Apart-symm a b h e = h (sym e.0, sym e.1)

  sort_onto-permᴰ :
      (out : List A) {l r : List A}
      → Permᴰ l r
      → Pairwise Apart l
      → sort_onto out l ≡ sort_onto out r
  unfolding sort_onto
  sort_onto-permᴰ out Permᴰ.nil d = refl
  sort_onto-permᴰ out (Permᴰ.cons {a = a} {b = b} {l₁ = l₁} e p) (Pairwise.cons h d) =
      rw e (sort_onto-permᴰ (insert_sorted b out) p d)
  sort_onto-permᴰ out (Permᴰ.swap {a = a} {b = b} {l = l} e f) (Pairwise.cons h d) =
      rw (← e, ← f)
        (ap (λ o. sort_onto o l) (insert_sorted_comm b a out (Apart-symm a b (h b mem-cons_self))))
  sort_onto-permᴰ out (Permᴰ.trans p q) d =
      sort_onto-permᴰ out p d ∙ sort_onto-permᴰ out q (Permᴰ.pairwise Apart-prop Apart-symm p d)

  insert_sorted-perm : (x : A) (l : List A) → Perm (insert_sorted x l) (x ∷ l)
  unfolding insert_sorted
  insert_sorted-perm x [] = Perm.refl (x ∷ [])
  insert_sorted-perm x (y ∷ l) = elim (Bool-cases (is_lt (compare_names x y))) [
    | inl e ↦ rw e (Perm.refl (x ∷ y ∷ l))
    | inr e ↦ rw e (Perm.trans (Perm.cons y (insert_sorted-perm x l)) (Perm.swap x y l))
  ]

  sort_onto-perm : (out l : List A) → Perm (sort_onto out l) (l ++ out)
  unfolding sort_onto
  sort_onto-perm out [] = Perm.refl out
  sort_onto-perm out (x ∷ l) =
      Perm.trans (sort_onto-perm (insert_sorted x out) l)
        (Perm.trans (Perm.append_left l (insert_sorted-perm x out)) (perm_middle l out))

  -- Sorting rearranges its input.
  pub sort_func-perm : (l : List A) → Perm (sort_func l) l
  unfolding sort_func
  sort_func-perm l = rw append-nil at (sort_onto-perm [] l)

  IsBelow : A → List A → Type ℓ
  IsBelow x l = (y : A) → Mem y l → InOrder x y

  InOrder-prop : (x y : A) → IsProp (InOrder x y)
  InOrder-prop x y = hlevel

  IsBelow-cons : (x y : A) (l : List A) → InOrder x y → IsBelow x l → IsBelow x (y ∷ l)
  unfolding IsBelow
  IsBelow-cons x y l p h = (forall_mem-cons (InOrder-prop x)).1 (p, h)

  InOrder-trans : (x y z : A) → is_lt (compare_names x y) ≡ true → InOrder y z → InOrder x z
  InOrder-trans x y z p q = ground (arith, before_trans z x y)

  insert_sorted-IsOrdered : (x : A) {l : List A} → IsOrdered l → IsOrdered (insert_sorted x l)
  unfolding insert_sorted IsBelow
  insert_sorted-IsOrdered x Pairwise.nil = Pairwise-singleton _ x
  insert_sorted-IsOrdered x (Pairwise.cons {a = y} {l = l} below s) =
      elim (Bool-cases (is_lt (compare_names x y))) [
        | inl e ↦ rw e (
            Pairwise.cons
              (IsBelow-cons x y l (ground (arith, before_swap x y))
                (λ z m. InOrder-trans x y z e (below z m)))
              (Pairwise.cons below s))
        | inr e ↦ rw e (
            Pairwise.cons
              (λ z m. IsBelow-cons y x l e below z ((Perm.mem_iff (insert_sorted-perm x l)).0 m))
              (insert_sorted-IsOrdered x s))
      ]

  sort_onto-IsOrdered : (l : List A) {out : List A} → IsOrdered out → IsOrdered (sort_onto out l)
  unfolding sort_onto
  sort_onto-IsOrdered [] s = s
  sort_onto-IsOrdered (x ∷ l) s = sort_onto-IsOrdered l (insert_sorted-IsOrdered x s)

  -- The name is smaller, or the names are the same and the namespace is smaller or the same.
  abbrev pub Ascends : A → A → Type 0
  Ascends x y =
      (compare (n.name_of x) (n.name_of y) ≡ Ordering.lt)
      ⊎ ((n.name_of x ≡ n.name_of y)
          × ((compare (n.namespace_of x) (n.namespace_of y) ≡ Ordering.lt)
              ⊎ (n.namespace_of x ≡ n.namespace_of y)))

  -- An ascending list: each item and any later one ascend.
  abbrev pub IsSorted : List A → Type ℓ
  IsSorted = Pairwise Ascends

  InOrder-Ascends : (x y : A) → InOrder x y → Ascends x y
  unfolding compare_names
  InOrder-Ascends x y h =
      go (compare (n.name_of x) (n.name_of y)) refl (compare (n.namespace_of x) (n.namespace_of y))
        refl (ap is_lt (sym (before_swap x y)) ∙ h)
    where
      go :
          (a : Ordering)
          → compare (n.name_of x) (n.name_of y) ≡ a
          → (b : Ordering) → compare (n.namespace_of x) (n.namespace_of y) ≡ b
          → is_lt (
              flip (
                cmp_or
                  (compare (n.name_of x) (n.name_of y))
                  (compare (n.namespace_of x) (n.namespace_of y))))
            ≡ false
          → Ascends x y
      go Ordering.lt e b f h = inl e
      go Ordering.eq e Ordering.lt f h = inr (compare_eq _ _ e, inl f)
      go Ordering.eq e Ordering.eq f h = inr (compare_eq _ _ e, inr (compare_eq _ _ f))
      go Ordering.eq e Ordering.gt f h = absurd (ground (arith, e, f))
      go Ordering.gt e b f h = absurd (ground (arith, e))

  IsOrdered-IsSorted : {l : List A} → IsOrdered l → IsSorted l
  IsOrdered-IsSorted Pairwise.nil = Pairwise.nil
  IsOrdered-IsSorted (Pairwise.cons {a = x} h s) =
      Pairwise.cons (λ y m. InOrder-Ascends x y (h y m)) (IsOrdered-IsSorted s)

  -- Sorting gives an ascending list.
  pub sort_func-IsSorted : (l : List A) → IsSorted (sort_func l)
  unfolding sort_func
  sort_func-IsSorted l = IsOrdered-IsSorted (sort_onto-IsOrdered l Pairwise.nil)

  -- In a type whose equality is a proposition, the sorted list does not depend on the order of its
  -- input where no two items share name and namespace.
  pub sort_func-perm_eq :
      {l r : List A} → Perm l r → Pairwise Apart l → IsSet A → sort_func l ≡ sort_func r
  unfolding sort_func
  sort_func-perm_eq p d s = ∥∥₁_elim p (list_set s _ _) (λ q. sort_onto-permᴰ [] q d)

  All-insert_sorted {κ} :
      (P : A → Type κ) (x : A) (l : List A) → P x → All P l → All P (insert_sorted x l)
  unfolding insert_sorted
  All-insert_sorted P x [] p h = (p, tt)
  All-insert_sorted P x (y ∷ l) p h = elim (Bool-cases (is_lt (compare_names x y))) [
    | inl e ↦ rw e (p, h)
    | inr e ↦ rw e (h.0, All-insert_sorted P x l p h.1)
  ]

  All-sort_onto {κ} :
      (P : A → Type κ) (out l : List A) → All P out → All P l → All P (sort_onto out l)
  unfolding sort_onto
  All-sort_onto P out [] h k = h
  All-sort_onto P out (x ∷ l) h k =
      All-sort_onto P (insert_sorted x out) l (All-insert_sorted P x out k.0 h) k.1

  -- What holds of all items holds of all sorted items.
  pub All-sort_func {κ} : (P : A → Type κ) (l : List A) → All P l → All P (sort_func l)
  unfolding sort_func
  All-sort_func P l h = All-sort_onto P [] l tt h
