-- ===== src/ApiServer/Authorization/Laws.antt =====
-- options/authorization.go: which authorization options are valid.
use hohapiserver.Base.{
  ℕ, String, eq_iff, arith, ◌≡◌, refl, ◌≢◌, ◌↔◌, ◌⊎◌, true, false, not, ◌&&◌, some, List, [], ◌∷◌,
  length, elem, All,
}
use hohapiserver.ApiServer.Errors.{error_if, error_if-nil_iff, append-nil_iff}
use hohapiserver.ApiServer.Sets.{set_of, distinct, elem-set_of, length-set_of_iff}
use hohapiserver.ApiServer.Ints.{no_attempts}
use hohapiserver.ApiServer.Authorization.{
  Modes, AuthorizationOptions, ModeError, no_mode, policy_without_abac, config_without_webhook,
  mode_repeated, no_retry, missing, is_empty, same_length, mode_errors, all_mode_errors,
  validate_authorization,
}

module _ (m : Modes) (o : AuthorizationOptions) where
  -- A mode that can stand in the list.
  abbrev pub GoodMode : String → Type 0
  GoodMode mode =
      (m.is_valid mode ≡ true)
      × ((mode ≢ m.abac) ⊎ (o.policy_file ≢ ""))
      × ((mode ≢ m.webhook) ⊎ (o.webhook_config_file ≢ ""))

  mode_errors_iff : (mode : String) → (mode_errors m o mode ≡ []) ↔ GoodMode mode
  unfolding mode_errors
  mode_errors_iff mode = ground (
    arith,
    eq_iff mode m.abac,
    eq_iff mode m.webhook,
    eq_iff o.policy_file "",
    eq_iff o.webhook_config_file "",
  )

  all_mode_errors_iff : (ms : List String) → (all_mode_errors m o ms ≡ []) ↔ All GoodMode ms
  unfolding all_mode_errors
  all_mode_errors_iff [] = (λ h. tt, λ h. refl)
  all_mode_errors_iff (x ∷ xs) = (
    λ h.
        let (a, b) = (append-nil_iff (mode_errors m o x) (all_mode_errors m o xs)).0 h in
        ((mode_errors_iff x).0 a, (all_mode_errors_iff xs).0 b),
    λ (a, b).
        (append-nil_iff (mode_errors m o x) (all_mode_errors m o xs)).1
          ((mode_errors_iff x).1 a, (all_mode_errors_iff xs).1 b),
  )

  -- What the options promise once they pass.
  pub record Authorized : Type 0 where
    pub some_mode : o.modes ≢ []
    pub good_modes : All GoodMode o.modes
    pub abac_used : (o.policy_file ≡ "") ⊎ (elem m.abac o.modes ≡ true)
    pub webhook_used : (o.webhook_config_file ≡ "") ⊎ (elem m.webhook o.modes ≡ true)
    pub no_repetition : distinct o.modes ≡ true
    pub attempts : no_attempts o.webhook_retry_backoff ≡ false

pub is_empty_iff : (xs : List String) → (is_empty xs ≡ false) ↔ (xs ≢ [])
is_empty_iff [] = (λ h. cc, λ h. absurd (h refl))
is_empty_iff (x ∷ xs) = (λ h. ground arith, λ h. refl)

same_length_iff : (n k : ℕ) → (not (same_length n k) ≡ false) ↔ (k ≡ n)
same_length_iff n k = ground arith

unused_iff :
    (file mode : String) (modes : List String) (e : ModeError)
    → (error_if (not (missing file) && not (elem mode (set_of modes))) e ≡ [])
      ↔ ((file ≡ "") ⊎ (elem mode modes ≡ true))
unused_iff file mode modes e = ground (arith, eq_iff file "", elem-set_of mode modes)

repeated_iff :
    (ms : List String) (e : ModeError)
    → (error_if (not (same_length (length ms) (length (set_of ms)))) e ≡ []) ↔ (distinct ms ≡ true)
repeated_iff ms e =
    ground (arith, same_length_iff (length ms) (length (set_of ms)), length-set_of_iff ms)

-- The validation reports nothing exactly when there is a mode, every mode is valid and has the file that
-- it needs, no file is given without its mode, no mode stands twice and a retry is attempted.
pub validate_authorization_iff :
    (m : Modes) (o : AuthorizationOptions)
    → (validate_authorization m (some o) ≡ []) ↔ Authorized m o
unfolding validate_authorization
validate_authorization_iff m o = (
  λ h.
      let (h1, r1) = (append-nil_iff (error_if (is_empty o.modes) no_mode) _).0 h in
      let (h2, r2) = (append-nil_iff (all_mode_errors m o o.modes) _).0 r1 in
      let (h3, r3) = (append-nil_iff _ _).0 r2 in
      let (h4, r4) = (append-nil_iff _ _).0 r3 in
      let (h5, h6) = (append-nil_iff _ _).0 r4 in
      record {
        some_mode = (is_empty_iff o.modes).0 ((error_if-nil_iff (is_empty o.modes) no_mode).0 h1);
        good_modes = (all_mode_errors_iff m o o.modes).0 h2;
        abac_used = (unused_iff o.policy_file m.abac o.modes policy_without_abac).0 h3;
        webhook_used =
            (unused_iff o.webhook_config_file m.webhook o.modes config_without_webhook).0 h4;
        no_repetition = (repeated_iff o.modes mode_repeated).0 h5;
        attempts = (error_if-nil_iff (no_attempts o.webhook_retry_backoff) no_retry).0 h6;
      },
  λ a. (append-nil_iff (error_if (is_empty o.modes) no_mode) _).1 (
    (error_if-nil_iff (is_empty o.modes) no_mode).1 ((is_empty_iff o.modes).1 a.some_mode),
    (append-nil_iff (all_mode_errors m o o.modes) _).1 (
      (all_mode_errors_iff m o o.modes).1 a.good_modes,
      (append-nil_iff _ _).1 (
        (unused_iff o.policy_file m.abac o.modes policy_without_abac).1 a.abac_used,
        (append-nil_iff _ _).1 (
          (unused_iff o.webhook_config_file m.webhook o.modes config_without_webhook).1
              a.webhook_used,
          (append-nil_iff _ _).1 (
            (repeated_iff o.modes mode_repeated).1 a.no_repetition,
            (error_if-nil_iff (no_attempts o.webhook_retry_backoff) no_retry).1 a.attempts,
          ),
        ),
      ),
    ),
  ),
)
