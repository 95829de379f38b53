-- ===== src/ApiServer/Aggregator/Laws.antt =====
-- aggregator.go: when the health check on the registered APIServices passes.
use hohapiserver.Base.{
  String, ◌==◌, eq_iff, eq_refl, arith, ◌≡◌, refl, sym, ◌∙◌, ap, ◌≢◌, ◌↔◌, inl, inr, Bool, true,
  false, not, ◌&&◌, ◌||◌, none, some, List, [], ◌∷◌, map, elem, All, Bool-cases,
}
use hohapiserver.ApiServer.Sets.{set_of, elem-set_of}
use hohapiserver.ApiServer.Aggregator.{
  ApiService, api_services_to_register, service_names, Change, remove, handle_api_service_change,
  after_changes, verdict, available_health_check,
}
use hohapiserver.ApiServer.Aggregator.Registered.{api_services_to_register-FromPath}

-- Some event tells that the service is available.
unfoldable pub seen_available : String → List Change → Bool
seen_available name [] = false
seen_available name (c ∷ later) = (c.available && c.service == name) || seen_available name later

elem-remove :
    (x name : String) (ns : List String) → elem x (remove name ns) ≡ (elem x ns && not (name == x))
unfolding elem remove
elem-remove x name [] = refl
elem-remove x name (n ∷ ns) =
    ground (arith, eq_iff x n, eq_iff n name, eq_iff name x, elem-remove x name ns)

elem-handle :
    (x : String) (pending : List String) (c : Change)
    → elem x (handle_api_service_change pending c)
      ≡ (elem x pending && not (c.available && c.service == x))
unfolding handle_api_service_change
elem-handle x pending c = elim (Bool-cases (c.service == x)) [
  | inl same ↦ ground (arith, eq_iff c.service x, elem-remove x c.service pending)
  | inr differs ↦ ground (arith, elem-remove x c.service pending)
]

-- What is still pending after the events is what no event has told to be available.
elem-after_changes :
    (x : String) (pending : List String) (cs : List Change)
    → elem x (after_changes pending cs) ≡ (elem x pending && not (seen_available x cs))
unfolding after_changes seen_available
elem-after_changes x pending [] = ground arith
elem-after_changes x pending (c ∷ cs) =
    ground (
      arith,
      elem-after_changes x (handle_api_service_change pending c) cs,
      elem-handle x pending c,
    )

nil_of_no_elem : (ns : List String) → ((x : String) → elem x ns ≡ false) → ns ≡ []
unfolding elem
nil_of_no_elem [] h = refl
nil_of_no_elem (n ∷ ns) h = ground (arith, h n, eq_refl n)

-- The names of services that are not nil.
abbrev pub names_of : List ApiService → List String
names_of [] = []
names_of (s ∷ ss) = s.name ∷ names_of ss

service_names-map : (l : List ApiService) → service_names (map some l) ≡ some (names_of l)
unfolding service_names
service_names-map [] = refl
service_names-map (s ∷ ss) = rw (service_names-map ss)

All-seen_of :
    (cs : List Change) (l : List ApiService)
    → ((x : String) → (elem x (names_of l) && not (seen_available x cs)) ≡ false)
    → All (λ s. seen_available s.name cs ≡ true) l
unfolding elem
All-seen_of cs [] h = tt
All-seen_of cs (s ∷ ss) h =
    (ground (arith, h s.name, eq_refl s.name), All-seen_of cs ss (λ x. ground (arith, h x)))

none_left_of :
    (cs : List Change) (l : List ApiService)
    → All (λ s. seen_available s.name cs ≡ true) l
    → (x : String) → (elem x (names_of l) && not (seen_available x cs)) ≡ false
unfolding elem
none_left_of cs [] h x = refl
none_left_of cs (s ∷ ss) (here, h) x = ground (arith, eq_iff x s.name, none_left_of cs ss h x)

elem_pending :
    (x : String) (l : List ApiService) (cs : List Change)
    → elem x (after_changes (set_of (names_of l)) cs)
      ≡ (elem x (names_of l) && not (seen_available x cs))
elem_pending x l cs =
    elem-after_changes x (set_of (names_of l)) cs
    ∙ ap (λ b. b && not (seen_available x cs)) (elem-set_of x (names_of l))

verdict_iff : (ns : List String) → (verdict ns ≡ none) ↔ ((x : String) → elem x ns ≡ false)
unfolding verdict elem
verdict_iff [] = (λ h x. refl, λ h. refl)
verdict_iff (n ∷ ns) = (λ h. cc, λ h. ground (arith, h n, eq_refl n))

available_health_check-map :
    (l : List ApiService) (cs : List Change)
    → available_health_check (map some l) cs
      ≡ some (verdict (after_changes (set_of (names_of l)) cs))
unfolding available_health_check
available_health_check-map l cs = ground (arith, service_names-map l)

healthy_iff :
    (l : List ApiService) (cs : List Change)
    → (available_health_check (map some l) cs ≡ some none)
      ↔ All (λ s. seen_available s.name cs ≡ true) l
healthy_iff l cs =
    let pending = after_changes (set_of (names_of l)) cs in
    (
      λ h. All-seen_of cs l (λ x.
          sym (elem_pending x l cs)
          ∙ (verdict_iff pending).0 (ground (arith, h, available_health_check-map l cs)) x),
      λ h.
          available_health_check-map l cs
          ∙ ap some ((verdict_iff pending).1 (λ x. elem_pending x l cs ∙ none_left_of cs l h x)),
    )

-- The names of what was registered are read without a panic.
pub service_names-registered :
    (paths : List String) → service_names (api_services_to_register paths).services ≢ none
service_names-registered paths =
    let (l, e, _) = api_services_to_register-FromPath paths in
    rw e (ground (arith, service_names-map l))

-- The health check over what was registered never panics, and it is healthy exactly when each registered
-- service was told to be available by some event.
pub available_health_check_iff :
    (paths : List String) (cs : List Change)
    → (l : List ApiService) × ((api_services_to_register paths).services ≡ map some l)
      × ((available_health_check (api_services_to_register paths).services cs ≡ some none)
          ↔ All (λ s. seen_available s.name cs ≡ true) l)
      × (available_health_check (api_services_to_register paths).services cs ≢ none)
available_health_check_iff paths cs =
    let (l, e, h) = api_services_to_register-FromPath paths in
    (
      l,
      rw e,
      (λ x. (healthy_iff l cs).0 (ground (arith, e, x)), λ x. rw e ((healthy_iff l cs).1 x)),
      rw e (ground (arith, available_health_check-map l cs)),
    )
