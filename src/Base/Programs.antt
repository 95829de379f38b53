-- ===== src/Base/Programs.antt =====
-- Functions that return an error or panic, and work on a state.
use mathlib.Core.Path.{◌≡◌, refl}
use mathlib.Core.Logic.{◌⊎◌, inl, inr}
use mathlib.Core.Option.{Option, none, some}
use mathlib.Core.List.{List, [], ◌∷◌}
use Prim.Native.String.{String}

pub data Result (A : Type 0) : Type 0 where
  returned : A → Result A
  failed : String → Result A
  panicked : Result A

abbrev pub Program : Type 0 → Type 0 → Type 0
Program S A = S → Result A × S

module _ {S : Type 0} where
  abbrev pub give : {A : Type 0} → A → Program S A
  give a s = (returned a, s)

  abbrev pub refuse : {A : Type 0} → String → Program S A
  refuse e s = (failed e, s)

  abbrev pub after : {A B : Type 0} → Result A × S → (A → Program S B) → Result B × S
  after (returned a, s) f = f a s
  after (failed e, s) f = (failed e, s)
  after (panicked, s) f = (panicked, s)

  -- `if err != nil { return err }` after a call.
  infixl 5 ◌>>=◌ ◌>>◌
  abbrev pub ◌>>=◌ : {A B : Type 0} → Program S A → (A → Program S B) → Program S B
  ◌>>=◌ m f s = after (m s) f

  abbrev pub ◌>>◌ : {B : Type 0} → Program S (Unit {0}) → Program S B → Program S B
  m >> k = m >>= λ _. k

  -- A value or an error that needs no state.
  abbrev pub value_or : {A : Type 0} → String ⊎ A → Program S A
  value_or (inl e) s = (failed e, s)
  value_or (inr a) s = (returned a, s)

  -- An error, or nil.
  abbrev pub unless_error : Option String → Program S (Unit {0})
  unless_error none s = (returned tt, s)
  unless_error (some e) s = (failed e, s)

  -- `for _, a := range as` with a body that may return.
  unfoldable pub for_each :
      {A : Type 0} → List A → (A → Program S (Unit {0})) → Program S (Unit {0})
  for_each [] body s = (returned tt, s)
  for_each (a ∷ rest) body s = after (body a s) (λ _. for_each rest body)

  -- What a chain that returns has gone through.
  pub >>=-returned :
      {A B : Type 0} (m : Program S A) (f : A → Program S B) {s s' : S} {b : B}
      → (m >>= f) s ≡ (returned b, s')
      → (a : A) × (t : S) × (m s ≡ (returned a, t)) × (f a t ≡ (returned b, s'))
  >>=-returned m f {s} h = after_cases (m s) f h
    where
      after_cases :
          {A B : Type 0} (r : Result A × S) (f : A → Program S B) {s' : S} {b : B}
          → after r f ≡ (returned b, s')
          → (a : A) × (t : S) × (r ≡ (returned a, t)) × (f a t ≡ (returned b, s'))
      after_cases (returned a, t) f h = (a, t, refl, h)
      after_cases (failed e, t) f h = cc
      after_cases (panicked, t) f h = cc

  pub value_then :
      {A B : Type 0} {r : String ⊎ A} (f : A → Program S B) (s : S) {s' : S} {b : B}
      → (value_or r >>= f) s ≡ (returned b, s')
      → (a : A) × (r ≡ inr a) × (f a s ≡ (returned b, s'))
  value_then {r = inl e} f s h = cc
  value_then {r = inr a} f s h = (a, refl, h)

  pub unless_then :
      {B : Type 0} {e : Option String} (f : Unit {0} → Program S B) (s : S) {s' : S} {b : B}
      → (unless_error e >>= f) s ≡ (returned b, s')
      → (e ≡ none) × (f tt s ≡ (returned b, s'))
  unless_then {e = none} f s h = (refl, h)
  unless_then {e = some x} f s h = cc

  pub step_then :
      (m : Program S (Unit {0})) {B : Type 0} {rest : Program S B} (s : S) {s' : S} {b : B}
      → (m >> rest) s ≡ (returned b, s')
      → (t : S) × (m s ≡ (returned tt, t)) × (rest t ≡ (returned b, s'))
  step_then m {rest = rest} s h = let (u, t, e, h') = >>=-returned m (λ _. rest) h in (t, e, h')
