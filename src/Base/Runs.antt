-- ===== src/Base/Runs.antt =====
-- What a call on a state does, whether it returns, fails or panics: one rule for each way to build a
-- call.
use mathlib.Core.Path.{◌≡◌, refl}
use mathlib.Core.Bool.{Bool, true, false}
use Prim.Native.String.{String}
use swagger_hub_controller.Base.Tests.{if◌then◌else◌}
use swagger_hub_controller.Base.Calls.{
  Error, Result, ok, err, panic, map_err, wrap, and_then, Action, pure, fail, lift, ◌>>=◌, wrapping,
  Run, on_world, assign, current,
}

-- A result that is no panic, but for the panics that are allowed.
abbrev pub IsCalm : (String → Type 0) → {A : Type 0} → Result A → Type 0
IsCalm C (ok a) = Unit
IsCalm C (err e) = Unit
IsCalm C (panic m) = C m

pub IsCalm-and_then :
    {A B : Type 0} (C : String → Type 0) (r : Result A) (f : A → Result B)
    → IsCalm C r
    → ((a : A) → IsCalm C (f a))
    → IsCalm C (and_then r f)
IsCalm-and_then C (ok a) f h k = k a
IsCalm-and_then C (err e) f h k = tt
IsCalm-and_then C (panic m) f h k = h

pub IsCalm-map_err :
    {A : Type 0} (C : String → Type 0) (g : Error → Error) (r : Result A)
    → IsCalm C r
    → IsCalm C (map_err g r)
IsCalm-map_err C g (ok a) h = tt
IsCalm-map_err C g (err e) h = tt
IsCalm-map_err C g (panic m) h = h

-- How a call may end: returned with a value and a state, or in an error or an allowed panic.
abbrev pub Ends :
    {W A : Type 0} → (W → Type 0) → (String → Type 0) → (A → W → Type 0) → Result A × W → Type 0
Ends E C Q (ok a, w) = Q a w
Ends E C Q (err e, w) = E w
Ends E C Q (panic m, w) = C m × E w

-- From a state of the first kind the call ends as described: `Q` where it returns, `E` after an error
-- or a panic, and a panic is one that `C` allows.
pub record Runs {W A : Type 0} (E : W → Type 0) (C : String → Type 0) (Pre : W → Type 0)
    (Q : A → W → Type 0) (m : Action W A) : Type 0 where
  pub at : (w : W) → Pre w → Ends E C Q (m w)

-- The call keeps a property of the state, however it ends.
abbrev pub Guards : {W A : Type 0} → (W → Type 0) → (String → Type 0) → Action W A → Type 0
Guards I C m = Runs I C I (λ _. I) m

module _ {W : Type 0} {E : W → Type 0} {C : String → Type 0} where
  pub Runs-pure :
      {A : Type 0} {Pre : W → Type 0} {Q : A → W → Type 0} (a : A)
      → ((w : W) → Pre w → Q a w)
      → Runs E C Pre Q (pure a)
  Runs-pure a h = record { at = h }

  pub Runs-fail :
      {A : Type 0} {Pre : W → Type 0} {Q : A → W → Type 0} (e : Error)
      → ((w : W) → Pre w → E w)
      → Runs E C Pre Q (fail e)
  Runs-fail e h = record { at = h }

  pub Runs-lift :
      {A : Type 0} {Pre : W → Type 0} {Q : A → W → Type 0} (r : Result A)
      → IsCalm C r
      → ((w : W) → Pre w → E w)
      → ((a : A) (w : W) → r ≡ ok a → Pre w → Q a w)
      → Runs E C Pre Q (lift r)
  Runs-lift (ok a) c e h = record { at = λ w p. h a w refl p }
  Runs-lift (err x) c e h = record { at = e }
  Runs-lift (panic m) c e h = record { at = λ w p. (c, e w p) }

  pub Runs-bind :
      {A B : Type 0} {Pre : W → Type 0} {Q : A → W → Type 0} {R : B → W → Type 0} (m : Action W A)
      (f : A → Action W B)
      → Runs E C Pre Q m
      → ((a : A) → Runs E C (Q a) R (f a))
      → Runs E C Pre R (m >>= f)
  Runs-bind {A} {B} {Pre} {Q} {R} m f first next = record { at = λ w p. go (m w) (first.at w p) }
    where
      go :
          (x : Result A × W)
          → Ends E C Q x
          → Ends E C R
              (elim x.0 [ ok a ↦ f a x.1 | err e ↦ (err e, x.1) | panic p ↦ (panic p, x.1) ])
      go (ok a, v) h = (next a).at v h
      go (err e, v) h = h
      go (panic m, v) h = h

  pub Runs-wrapping :
      {A : Type 0} {Pre : W → Type 0} {Q : A → W → Type 0} (prefix : String) (m : Action W A)
      → Runs E C Pre Q m
      → Runs E C Pre Q (wrapping prefix m)
  Runs-wrapping {A} {Pre} {Q} prefix m h = record { at = λ w p. go (m w) (h.at w p) }
    where
      go : (x : Result A × W) → Ends E C Q x → Ends E C Q (map_err (wrap prefix) x.0, x.1)
      go (ok a, v) h = h
      go (err e, v) h = h
      go (panic m, v) h = h

  pub Runs-if :
      {A : Type 0} {Pre : W → Type 0} {Q : A → W → Type 0} (b : Bool) (m n : Action W A)
      → (b ≡ true → Runs E C Pre Q m)
      → (b ≡ false → Runs E C Pre Q n)
      → Runs E C Pre Q (if b then m else n)
  Runs-if true m n h k = h refl
  Runs-if false m n h k = k refl

  pub Runs-if_at :
      {A : Type 0} {Pre : W → Type 0} {Q : A → W → Type 0} (b : Bool) (m n : Action W A)
      → (b ≡ true → Runs E C Pre Q m)
      → (b ≡ false → Runs E C Pre Q n)
      → Runs E C Pre Q (λ w. if b then m w else n w)
  Runs-if_at true m n h k = record { at = (h refl).at }
  Runs-if_at false m n h k = record { at = (k refl).at }

  -- A call whose error is handled.
  pub Runs-handle :
      {A B : Type 0} {Pre : W → Type 0} {Q : A → W → Type 0} {R : B → W → Type 0} (m : Action W A)
      (f : A → Action W B) (g : Error → Action W B)
      → Runs E C Pre Q m
      → ((a : A) → Runs E C (Q a) R (f a))
      → ((e : Error) → Runs E C E R (g e))
      → Runs E C Pre R (λ w. elim (m w).0 [
        | ok a ↦ f a (m w).1
        | err e ↦ g e (m w).1
        | panic p ↦ (panic p, (m w).1)
      ])
  Runs-handle {A} {B} {Pre} {Q} {R} m f g first next failed = record {
    at = λ w p. go (m w) (first.at w p);
  }
    where
      go :
          (x : Result A × W)
          → Ends E C Q x
          → Ends E C R (elim x.0 [ ok a ↦ f a x.1 | err e ↦ g e x.1 | panic p ↦ (panic p, x.1) ])
      go (ok a, v) h = (next a).at v h
      go (err e, v) h = (failed e).at v h
      go (panic m, v) h = h

  -- What no call can change is kept.
  pub Runs-frame :
      {A : Type 0} {Pre : W → Type 0} {Q : A → W → Type 0} {F : Type 0} (m : Action W A)
      → Runs E C Pre Q m
      → Runs E C (λ w. Pre w × F) (λ a w. Q a w × F) m
  Runs-frame {A} {Pre} {Q} {F} m h = record { at = λ w p. go (m w) (h.at w p.0) p.1 }
    where
      go : (x : Result A × W) → Ends E C Q x → F → Ends E C (λ a w. Q a w × F) x
      go (ok a, v) k f = (k, f)
      go (err e, v) k f = k
      go (panic n, v) k f = k

  -- The value comes from the call.
  pub Runs-returned :
      {A : Type 0} {Pre : W → Type 0} {Q : A → W → Type 0} (m : Action W A)
      → Runs E C Pre Q m
      → Runs E C Pre (λ a w'. Q a w' × ((w : W) × (m w ≡ (ok a, w')))) m
  Runs-returned {A} {Pre} {Q} m h = record { at = λ w p. go w (m w) refl (h.at w p) }
    where
      go :
          (w : W) (x : Result A × W)
          → m w ≡ x
          → Ends E C Q x
          → Ends E C (λ a w'. Q a w' × ((w : W) × (m w ≡ (ok a, w')))) x
      go w (ok a, v) e k = (k, (w, e))
      go w (err e', v) e k = k
      go w (panic n, v) e k = k

  -- A weaker start and a stronger end.
  pub Runs-consequence :
      {A : Type 0} {Pre Pre' : W → Type 0} {Q Q' : A → W → Type 0} (m : Action W A)
      → ((w : W) → Pre' w → Pre w)
      → ((a : A) (w : W) → Q a w → Q' a w)
      → Runs E C Pre Q m
      → Runs E C Pre' Q' m
  Runs-consequence {A} {Pre} {Pre'} {Q} {Q'} m weaken strengthen h = record {
    at = λ w p. go (m w) (h.at w (weaken w p));
  }
    where
      go : (x : Result A × W) → Ends E C Q x → Ends E C Q' x
      go (ok a, v) k = strengthen a v k
      go (err e, v) k = k
      go (panic m, v) k = k

-- A property of the cluster, for a controller that also has its copy of a resource.
abbrev pub InWorld : {W A : Type 0} → (W → Type 0) → Run W A → Type 0
InWorld P s = P s.world

module _ {W : Type 0} (E : W → Type 0) {C : String → Type 0} where
  pub Runs-on_world :
      {A B : Type 0} {Pre : Run W A → Type 0} {Q : B → Run W A → Type 0} (m : Action W B)
      → ((o : A)
          → Runs E C
              (λ w. Pre (record { world = w; object = o }))
              (λ b w. Q b (record { world = w; object = o }))
              m)
      → Runs (InWorld E) C Pre Q (on_world m)
  Runs-on_world {A} {B} {Pre} {Q} m h = record {
    at = λ s p. go s.object (m s.world) ((h s.object).at s.world p);
  }
    where
      go :
          (o : A) (x : Result B × W)
          → Ends E C (λ b w. Q b (record { world = w; object = o })) x
          → Ends (InWorld E) C Q (x.0, record { world = x.1; object = o })
      go o (ok b, v) h = h
      go o (err e, v) h = h
      go o (panic m, v) h = h

  pub Runs-assign :
      {A : Type 0} {Pre : Run W A → Type 0} {Q : Unit {0} → Run W A → Type 0} (f : W → A → A)
      → ((s : Run W A) → Pre s → Q tt (record s { object = f s.world s.object }))
      → Runs (InWorld E) C Pre Q (assign f)
  Runs-assign f h = record { at = h }

  pub Runs-current :
      {A : Type 0} {Pre : Run W A → Type 0} {Q : A → Run W A → Type 0}
      → ((s : Run W A) → Pre s → Q s.object s)
      → Runs (InWorld E) C Pre Q current
  Runs-current h = record { at = h }
