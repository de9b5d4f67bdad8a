-- ===== src/Base/Calls.antt =====
-- The outcome of a Go call that returns an error or panics, and calls that also change a state.
use Prim.Native.String.{String, ◌++◌}
use mathlib.Core.Path.{◌≡◌, refl, sym, ap, ◌∙◌}
use mathlib.Core.Bool.{Bool, false}

-- A Go error: what `apierrors.IsNotFound` answers, and `err.Error()`.
pub record Error : Type 0 where
  pub is_not_found : Bool
  pub message : String

-- `fmt.Errorf` of a text without `%w`.
abbrev pub errorf : String → Error
errorf m = record { is_not_found = false; message = m }

-- `fmt.Errorf("<prefix>%w", err)`: the wrapped error is still found by `apierrors.IsNotFound`.
abbrev pub wrap : String → Error → Error
wrap prefix e = record e { message = prefix ++ e.message }

pub data Result {ℓ} (A : Type ℓ) : Type ℓ where
  ok : A → Result A
  err : Error → Result A
  panic : String → Result A

abbrev pub map_err {ℓ} : {A : Type ℓ} → (Error → Error) → Result A → Result A
map_err f (ok a) = ok a
map_err f (err e) = err (f e)
map_err f (panic p) = panic p

-- The pure part of a call: `a, err := f(); if err != nil { return err }`.
abbrev pub and_then {ℓ κ} : {A : Type ℓ} {B : Type κ} → Result A → (A → Result B) → Result B
and_then (ok a) f = f a
and_then (err e) f = err e
and_then (panic p) f = panic p

-- A call on a state `W`. What was written before an error stays written.
abbrev pub Action : Type 0 → Type 0 → Type 0
Action W A = W → Result A × W

abbrev pub pure : {W A : Type 0} → A → Action W A
pure a w = (ok a, w)

abbrev pub fail : {W A : Type 0} → Error → Action W A
fail e w = (err e, w)

-- A result that is at hand: `if err != nil { return err }`.
abbrev pub lift : {W A : Type 0} → Result A → Action W A
lift r w = (r, w)

infixl 5 ◌>>=◌ ◌>>◌
abbrev pub ◌>>=◌ : {W A B : Type 0} → Action W A → (A → Action W B) → Action W B
◌>>=◌ m f w =
    let (r, w') = m w in elim r [ ok a ↦ f a w' | err e ↦ (err e, w') | panic p ↦ (panic p, w') ]

abbrev pub ◌>>◌ : {W A B : Type 0} → Action W A → Action W B → Action W B
m >> k = m >>= λ _. k

-- `return fmt.Errorf("<prefix>%w", err)`
abbrev pub wrapping : {W A : Type 0} → String → Action W A → Action W A
wrapping prefix m w = let (r, w') = m w in (map_err (wrap prefix) r, w')

-- A controller runs on the cluster and on its own copy of the resource that it reconciles.
pub record Run (W A : Type 0) : Type 0 where
  pub world : W
  pub object : A

abbrev pub on_world : {W A B : Type 0} → Action W B → Action (Run W A) B
on_world m s = let (r, w) = m s.world in (r, record s { world = w })

-- An assignment to the copy, which may read the clock of the world.
abbrev pub assign : {W A : Type 0} → (W → A → A) → Action (Run W A) (Unit {0})
assign f s = (ok tt, record s { object = f s.world s.object })

abbrev pub current : {W A : Type 0} → Action (Run W A) A
current s = (ok s.object, s)

-- Inversion of a chain of calls that has returned.
pub >>=-eq-ok :
    {W A B : Type 0} (m : Action W A) (f : A → Action W B) (w : W) {b : B} {w' : W}
    → (m >>= f) w ≡ (ok b, w')
    → (a : A) × (v : W) × (m w ≡ (ok a, v)) × (f a v ≡ (ok b, w'))
>>=-eq-ok {W} {A} {B} m f w {b} {w'} e = go (m w) refl e
  where
    go :
        (x : Result A × W)
        → m w ≡ x
        → elim x.0 [ ok a ↦ f a x.1 | err e ↦ (err e, x.1) | panic p ↦ (panic p, x.1) ] ≡ (ok b, w')
        → (a : A) × (v : W) × (m w ≡ (ok a, v)) × (f a v ≡ (ok b, w'))
    go (ok a, v) p e = (a, v, p, e)
    go (err x, v) p e = cc
    go (panic x, v) p e = cc

pub wrapping-eq-ok :
    {W A : Type 0} (prefix : String) (m : Action W A) (w : W) {a : A} {w' : W}
    → wrapping prefix m w ≡ (ok a, w')
    → m w ≡ (ok a, w')
wrapping-eq-ok {W} {A} prefix m w {a} {w'} e = go (m w) refl e
  where
    go :
        (x : Result A × W)
        → m w ≡ x
        → ◌≡◌ {A = Result A × W} (map_err (wrap prefix) x.0, x.1) (ok a, w')
        → m w ≡ (ok a, w')
    go (ok a, v) p e = p ∙ e
    go (err x, v) p e = cc
    go (panic x, v) p e = cc

pub on_world-eq-ok :
    {W A B : Type 0} (m : Action W B) (s : Run W A) {b : B} {s' : Run W A}
    → on_world m s ≡ (ok b, s')
    → (m s.world ≡ (ok b, s'.world)) × (s'.object ≡ s.object)
on_world-eq-ok m s {b} {s'} e = (ap (λ x. (x.0, x.1.world)) e, sym (ap (λ x. x.1.object) e))

-- A chain of calls whose first one returns.
pub >>=-ok :
    {W A B : Type 0} (m : Action W A) (f : A → Action W B) (w : W) {a : A} {v : W}
    → m w ≡ (ok a, v)
    → (m >>= f) w ≡ f a v
>>=-ok {W} {A} {B} m f w e =
    ap
      (λ (x : Result A × W). (elim x.0 [
        | ok a ↦ f a x.1
        | err e ↦ (err e, x.1)
        | panic p ↦ (panic p, x.1)
      ]))
      e

pub return-injective :
    {W A : Type 0} {a b : A} {w w' : W} → ◌≡◌ {A = Result A × W} (ok a, w) (ok b, w') → a ≡ b
return-injective {W} {A} {a} e =
    ap (λ (x : Result A × W). (elim x.0 [ ok b ↦ b | err y ↦ a | panic m ↦ a ])) e

pub ok-injective : {A : Type 0} {a b : A} → ok a ≡ ok b → a ≡ b
ok-injective e = cc
