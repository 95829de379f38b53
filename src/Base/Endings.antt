-- ===== src/Base/Endings.antt =====
-- What holds where a program ends: a postcondition for a value that is returned, and what a panic comes to.
use mathlib.Core.Path.{◌≡◌, refl, subst}
use mathlib.Core.Logic.{◌≢◌, ◌⊎◌, inl, inr}
use mathlib.Core.Option.{Option, none, some}
use Prim.Native.String.{String}
use hohapiserver.Base.Programs.{
  Result, returned, failed, panicked, Program, after, ◌>>=◌, value_or, unless_error,
}

-- `X` is what is left to show at a panic: nothing can be shown of `⊥`, so that there is no panic.
pub data Ends {A S : Type 0} (X : Type 0) (Q : A → S → Type 0) : Result A × S → Type 0 where
  at_value : {a : A} {s : S} → Q a s → Ends X Q (returned a, s)
  at_error : {e : String} {s : S} → Ends X Q (failed e, s)
  at_panic : {s : S} → X → Ends X Q (panicked, s)

abbrev AtValue : {A S : Type 0} → (A → S → Type 0) → Result A × S → Type 0
AtValue Q (returned a, s) = Q a s
AtValue Q (failed e, s) = Unit
AtValue Q (panicked, s) = Unit

module _ {S : Type 0} {X : Type 0} {A : Type 0} {Q : A → S → Type 0} where
  after-Ends :
      {B : Type 0} {R : B → S → Type 0} {r : Result A × S} (f : A → Program S B)
      → Ends X Q r
      → ((a : A) (t : S) → Q a t → Ends X R (f a t))
      → Ends X R (after r f)
  after-Ends f (at_value {a} {s} q) next = next a s q
  after-Ends f at_error next = at_error
  after-Ends f (at_panic x) next = at_panic x

  pub >>=-Ends :
      {B : Type 0} {R : B → S → Type 0} (m : Program S A) (f : A → Program S B) (s : S)
      → Ends X Q (m s)
      → ((a : A) (t : S) → Q a t → Ends X R (f a t))
      → Ends X R ((m >>= f) s)
  >>=-Ends m f s h next = after-Ends f h next

  pub value_or-Ends :
      (r : String ⊎ A) (s : S) → ((a : A) → r ≡ inr a → Q a s) → Ends X Q (value_or r s)
  value_or-Ends (inl e) s h = at_error
  value_or-Ends (inr a) s h = at_value (h a refl)

  pub Ends-same : {r : Result A × S} → Ends X Q r → Ends X (λ a s. (r ≡ (returned a, s)) × Q a s) r
  Ends-same (at_value q) = at_value (refl, q)
  Ends-same at_error = at_error
  Ends-same (at_panic x) = at_panic x

  pub Ends-weaken :
      {R : A → S → Type 0} {r : Result A × S}
      → Ends X Q r
      → ((a : A) (s : S) → Q a s → R a s)
      → Ends X R r
  Ends-weaken (at_value {a} {s} q) weaken = at_value (weaken a s q)
  Ends-weaken at_error weaken = at_error
  Ends-weaken (at_panic x) weaken = at_panic x

  Ends-AtValue : {r : Result A × S} → Ends X Q r → AtValue Q r
  Ends-AtValue (at_value q) = q
  Ends-AtValue at_error = tt
  Ends-AtValue (at_panic x) = tt

  pub Ends-returned : {r : Result A × S} {a : A} {s : S} → Ends X Q r → r ≡ (returned a, s) → Q a s
  Ends-returned h e = subst (AtValue Q) e (Ends-AtValue h)

module _ {S : Type 0} {X : Type 0} {Q : Unit {0} → S → Type 0} where
  pub unless_error-Ends : (e : Option String) (s : S) → Q tt s → Ends X Q (unless_error e s)
  unless_error-Ends none s h = at_value h
  unless_error-Ends (some e) s h = at_error

pub Ends-safe : {A S : Type 0} {Q : A → S → Type 0} {r : Result A × S} → Ends ⊥ Q r → r.0 ≢ panicked
Ends-safe (at_value q) e = cc
Ends-safe at_error e = cc
Ends-safe (at_panic x) e = x

-- What is left to show at a panic.
pub Ends-panic :
    {A S X : Type 0} {Q : A → S → Type 0} {r : Result A × S} → Ends X Q r → r.0 ≡ panicked → X
Ends-panic (at_value q) e = absurd cc
Ends-panic at_error e = absurd cc
Ends-panic (at_panic x) e = x

-- Without a panic, whatever is to be shown at one.
pub Ends-any : {A S X : Type 0} {Q : A → S → Type 0} {r : Result A × S} → Ends ⊥ Q r → Ends X Q r
Ends-any (at_value q) = at_value q
Ends-any at_error = at_error
Ends-any (at_panic x) = absurd x
