-- ===== src/KubeControllers/Manager/Order.antt =====
-- controllermanager.go: StartControllers goes over a map, in any order; what does not depend on it.
use mathlib.Core.List.{filter_map, append_assoc, append-nil, perm_middle}
use mathlib.Core.List.{Perm, Permᴰ}
use mathlib.Core.List.Perm
use mathlib.Core.Logic.{∥∥₁_elim}
use mathlib.Core.HLevel.{hedberg}
use mathlib.Core.Path.{subst}
use hohapiserver.Base.{
  String, if◌then◌else◌, All, ◌==◌, eq_iff, not, Bool-cases, inl, inr, Option, none, some, List, [],
  ◌∷◌, ◌++◌, ◌≡◌, refl, arith, sym,
}
use hohapiserver.KubeControllers.Manager.{
  Check, Init, InitFunc, Offers, Manager, check_of, mounted, start_loop, start_controllers,
}

append_comm-Perm : {A : Type 0} (xs ys : List A) → Perm (xs ++ ys) (ys ++ xs)
append_comm-Perm [] ys = rw append-nil (Perm.refl ys)
append_comm-Perm (x ∷ xs) ys =
    Perm.trans (Perm.cons x (append_comm-Perm xs ys)) (Perm.symm (perm_middle ys xs))

string_discrete : Discrete String
string_discrete s t = elim (Bool-cases (s == t)) [
  | inl same ↦ yes ((eq_iff s t).0 same)
  | inr differs ↦ no (λ e. ground (arith, differs, eq_iff s t, e))
]

string_set : IsSet String
string_set = hedberg string_discrete

All-Permᴰ :
    {A : Type 0} (P : A → Type 0) {first second : List A}
    → Permᴰ first second
    → All P second
    → All P first
All-Permᴰ P Permᴰ.nil h = tt
All-Permᴰ P (Permᴰ.cons e d) (h, hs) = (subst P (sym e) h, All-Permᴰ P d hs)
All-Permᴰ P (Permᴰ.swap e f) (h, (h', hs)) = (subst P (sym e) h', (subst P (sym f) h, hs))
All-Permᴰ P (Permᴰ.trans d d') h = All-Permᴰ P d (All-Permᴰ P d' h)

module _ {O C G D H : Type 0} (offers : Offers C D H)
    (answer : String × InitFunc O C G → Init C G) where
  -- The controllers do not look at the world for what they answer, and none of them fails.
  abbrev pub Settled : List (String × InitFunc O C G) → Type 0
  Settled = All (λ c. ((o : O) → (c.1 o).0 ≡ answer c) × ((answer c).error ≡ none))

  -- The health check of a controller that is enabled.
  abbrev pub check_of_started : String × InitFunc O C G → Option (Check H)
  check_of_started c =
      if not (answer c).enabled then none else some (check_of offers c.0 (answer c).controller)

  unfoldable pub launched : List (String × InitFunc O C G) → List G
  launched [] = []
  launched (c ∷ rest) = (answer c).goroutines ++ launched rest

  loop_settled :
      (order : List (String × InitFunc O C G)) (checks : List (Check H)) (m : Manager O G D H)
      → Settled order
      → let r = start_loop offers order checks m in
        (r.0.0 ≡ none)
        × (r.0.1 ≡ checks ++ filter_map check_of_started order)
        × (r.1.running ≡ m.running ++ launched order)
        × (r.1.health ≡ m.health)
  unfolding start_loop filter_map launched
  loop_settled [] checks m settled =
      (refl, sym (append-nil checks), sym (append-nil m.running), refl)
  loop_settled (c ∷ rest) checks m settled =
      let ((fixed, fine), settled') = settled in
      let e = fixed m.outer in
      let m1 = record m { outer = (c.1 m.outer).1; running = m.running ++ (answer c).goroutines } in
      let m2 = record m1 { mux = mounted offers c.0 (answer c).controller m.mux } in
      let check = check_of offers c.0 (answer c).controller in
      elim (Bool-cases (answer c).enabled) [
        | inl on ↦ ground (
          arith,
          e,
          fine,
          on,
          loop_settled rest (checks ++ check ∷ []) m2 settled',
          append_assoc checks (check ∷ []) (filter_map check_of_started rest),
          append_assoc m.running (answer c).goroutines (launched rest),
        )
        | inr off ↦ ground (
          arith,
          e,
          fine,
          off,
          loop_settled rest checks m1 settled',
          append_assoc m.running (answer c).goroutines (launched rest),
        )
      ]

  launched-Permᴰ :
      {first second : List (String × InitFunc O C G)}
      → Permᴰ first second
      → Perm (launched first) (launched second)
  unfolding launched
  launched-Permᴰ Permᴰ.nil = Perm.nil
  launched-Permᴰ (Permᴰ.cons {b = b} e d) =
      rw e (Perm.append_left (answer b).goroutines (launched-Permᴰ d))
  launched-Permᴰ (Permᴰ.swap {a = a} {b = b} {l = l} e f) =
      let ga = (answer a).goroutines in
      let gb = (answer b).goroutines in
      rw⁻¹ (e, f)
        (rw⁻¹ (append_assoc ga gb (launched l), append_assoc gb ga (launched l))
          (Perm.append_right (launched l) (append_comm-Perm ga gb)))
  launched-Permᴰ (Permᴰ.trans p q) = Perm.trans (launched-Permᴰ p) (launched-Permᴰ q)

  -- Controllers of which none fails: all their goroutines run, and each one that is enabled has a check.
  pub start_controllers-starts :
      (order : List (String × InitFunc O C G)) (m : Manager O G D H)
      → Settled order
      → let r = start_controllers offers order m in
        (r.0 ≡ none)
        × (r.1.running ≡ m.running ++ launched order)
        × (r.1.health ≡ m.health ++ filter_map check_of_started order)
  unfolding start_controllers
  start_controllers-starts order m settled =
      let (e, checks, running, health) = loop_settled order [] m settled in
      (ground (arith, e), ground (arith, e, running), ground (arith, e, checks, health))

  -- For controllers that all start or are skipped, whatever the order in which the map gives them,
  -- StartControllers succeeds, and up to order it starts the same goroutines and adds the same health checks.
  pub start_controllers-Perm :
      (first second : List (String × InitFunc O C G)) (m : Manager O G D H)
      → Perm first second
      → Settled second
      → let a = start_controllers offers first m in
        let b = start_controllers offers second m in
        (a.0 ≡ none) × (b.0 ≡ none) × Perm a.1.running b.1.running × Perm a.1.health b.1.health
  start_controllers-Perm first second m p settled =
      let (e', running', health') = start_controllers-starts second m settled in
      ∥∥₁_elim p (hlevel (string_set)) (λ d.
        let (e, running, health) = start_controllers-starts first m (All-Permᴰ _ d settled) in
        (
          e,
          e',
          rw (running, running') (Perm.append_left m.running (launched-Permᴰ d)),
          rw (health, health') (Perm.append_left m.health (Perm.filter_map check_of_started p)),
        ))
