-- ===== src/KubeControllers/Manager.antt =====
-- controllermanager.go: the initializers of the controllers, and StartControllers.
pub mod Order
use Prim.Native.String
use hohapiserver.Base.{
  String, if◌then◌else◌, Bool, not, ◌||◌, Option, none, some, List, [], ◌∷◌, ◌++◌,
}

-- healthz.HealthChecker: NamedPingChecker or NamedHealthChecker.
pub data Check (H : Type 0) : Type 0 where
  ping : String → Check H
  named : String → H → Check H

-- What an InitFunc returns, with the goroutines that it starts; G names a goroutine, C a controller.
pub record Init (C G : Type 0) : Type 0 where
  pub controller : Option C
  pub enabled : Bool
  pub error : Option String
  pub goroutines : List G

-- InitFunc, on the world outside of the program.
abbrev pub InitFunc : Type 0 → Type 0 → Type 0 → Type 0
InitFunc O C G = O → Init C G × O

-- What a controller offers besides: the handler of a Debuggable and the check of a HealthCheckable, nil as
-- `none`.
pub record Offers (C D H : Type 0) : Type 0 where
  pub debugging_handler : C → Option D
  pub health_checker : C → Option H

-- What StartControllers has changed: the handlers of unsecuredMux, nil as `none`, and the checks.
pub record Manager (O G D H : Type 0) : Type 0 where
  pub outer : O
  pub running : List G
  pub mux : Option (List (String × D))
  pub health : List (Check H)

module _ {C D H : Type 0} (offers : Offers C D H) where
  pub check_of : String → Option C → Check H
  check_of name none = ping name
  check_of name (some ctrl) = elim (offers.health_checker ctrl) [
    | none ↦ ping name
    | some h ↦ named name h
  ]

  -- UnlistedHandle and UnlistedHandlePrefix under /debug/controllers/.
  mounted : String → Option C → Option (List (String × D)) → Option (List (String × D))
  mounted name none mux = mux
  mounted name (some ctrl) none = none
  mounted name (some ctrl) (some handlers) = elim (offers.debugging_handler ctrl) [
    | none ↦ some handlers
    | some h ↦ some (handlers ++ ((base, h) ∷ (String.◌++◌ base "/", h) ∷ []))
  ]
    where
      base : String
      base = String.◌++◌ "/debug/controllers/" name

module _ {O C G D H : Type 0} (offers : Offers C D H) where
  -- The loop of StartControllers, over the entries in the order that the map gives them; the checks that it
  -- collects come back with an error or nil.
  start_loop :
      List (String × InitFunc O C G)
      → List (Check H)
      → Manager O G D H
      → (Option String × List (Check H)) × Manager O G D H
  unfolding check_of mounted
  start_loop [] checks m = ((none, checks), m)
  start_loop ((name, init_fn) ∷ rest) checks m =
      let (answer, o) = init_fn m.outer in
      let launched = record m { outer = o; running = m.running ++ answer.goroutines } in
      elim answer.error [
        | some e ↦ ((some e, checks), launched)
        | none ↦
            let (collected, next) = if not answer.enabled then (checks, launched) else (
              checks ++ check_of offers name answer.controller ∷ [],
              record launched { mux = mounted offers name answer.controller m.mux },
            ) in
            start_loop rest collected next
      ]

  -- StartControllers
  unfoldable pub start_controllers :
      List (String × InitFunc O C G) → Manager O G D H → Option String × Manager O G D H
  unfolding start_loop
  start_controllers controllers m =
      let ((error, checks), m') = start_loop controllers [] m in
      elim error [
        | some e ↦ (some e, m')
        | none ↦ (none, record m' { health = m'.health ++ checks })
      ]
