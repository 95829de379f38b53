-- ===== src/ApiServer/Errors.antt =====
-- Lists of errors that a validation appends to.
use hohapiserver.Base.{◌≡◌, refl, ◌↔◌, Bool, true, false, List, [], ◌∷◌, ◌++◌}

module _ {ℓ} {E : Type ℓ} where
  -- `if wrong { errs = append(errs, e) }`
  abbrev pub error_if : Bool → E → List E
  error_if true e = e ∷ []
  error_if false e = []

  pub error_if-nil_iff : (wrong : Bool) (e : E) → (error_if wrong e ≡ []) ↔ (wrong ≡ false)
  error_if-nil_iff true e = (λ h. cc, λ h. cc)
  error_if-nil_iff false e = (λ h. refl, λ h. refl)

  pub append-nil_iff : (xs ys : List E) → (xs ++ ys ≡ []) ↔ ((xs ≡ []) × (ys ≡ []))
  append-nil_iff [] ys = (λ h. (refl, h), λ (e, h). h)
  append-nil_iff (x ∷ xs) ys = (λ h. cc, λ (e, h). cc)
