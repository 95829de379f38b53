-- ===== src/ApiServer/Generic/Build/Ending.antt =====
-- server.go: what buildGenericConfig ends with, step by step from the client to the flow control.
use hohapiserver.Base.{
  ℕ, suc, ◌<◌, ◌≤◌, String, ◌≡◌, refl, ◌≢◌, ◌∙◌, arith, Bool, true, false, ◌&&◌, Option, none, some,
  if◌then◌else◌, ◌⊎◌, inl, inr, Program, give, value_or, unless_error, ◌>>=◌, Ends, at_value,
  at_panic, at_error, >>=-Ends, value_or-Ends, unless_error-Ends, Ends-returned, Ends-safe,
  panicked, returned, Result,
}
use hohapiserver.ApiServer.Ints.{positive, sum, wrap64, quarter}
use hohapiserver.ApiServer.Authorization.{AuthorizationOptions}
use hohapiserver.ApiServer.Server.{RequestOptions, wrapped}
use hohapiserver.ApiServer.Generic.{
  Parts, api_priority_and_fairness, control_plane, Loopback, Egress, GenericConfig, Heap, new_map,
}
use hohapiserver.ApiServer.Generic.Build.{
  Calls, Built, Options, called, deref, failing, build_authorizer, build_priority_and_fairness,
  apply_options, apply_storage, egress_dial, apply_to_fields, authenticated, authorized,
  with_rbac_hook, for_itself, build_service_resolver, secured, with_flow_control,
  build_generic_config,
}
use hohapiserver.ApiServer.Generic.Build.Laws.{
  Touches, Touches-trans, called-Ends, KeepsLoopback, anything, then_call, apply_options-Ends,
  apply_storage-Ends,
}

failing-Ends :
    {S A X : Type 0} {Q : A → S → Type 0} (prefix : String) (m : Program S A) (s : S)
    → Ends X Q (m s)
    → Ends X Q (failing prefix m s)
failing-Ends {S} {A} {X} {Q} prefix m s h = by_result h
  where
    by_result : {r : Result A × S} → Ends X Q r → Ends X Q (failing prefix (λ _. r) s)
    by_result (at_value q) = at_value q
    by_result at_error = at_error
    by_result (at_panic x) = at_panic x

pub deref-Ends :
    {S A X : Type 0} (o : Option A) (s : S)
    → (o ≢ none) ⊎ X
    → Ends X (λ a t. (o ≡ some a) × (t ≡ s)) (deref o s)
deref-Ends none s (inl n) = absurd (n refl)
deref-Ends none s (inr x) = at_panic x
deref-Ends (some a) s h = at_value (refl, refl)

-- The flow control that a configuration has where it is asked for.
abbrev pub Controlled :
    {P : Parts} → Calls P → RequestOptions → P.Informers → Option P.FlowControl → Type 0
Controlled {P} lib r informers flow =
    (client : P.Client) × (f : P.FlowControl) × (build_priority_and_fairness lib r client informers
      ≡ inr f)
    × (flow ≡ some f)

with_rbac_hook-loopback :
    {P : Parts} (lib : Calls P) (o : AuthorizationOptions) (c : GenericConfig P)
    → (with_rbac_hook lib o c).loopback ≡ c.loopback
with_rbac_hook-loopback lib o c = ground arith

module _ {P : Parts} {X : Type 0} (lib : Calls P) where
  egress_dial-Ends :
      (e : Option (Egress P)) (h : Heap P) → Ends X (λ d h'. h' ≡ h) (egress_dial lib e h)
  unfolding egress_dial
  egress_dial-Ends none h = at_value refl
  egress_dial-Ends (some e) h =
      >>=-Ends {Q = λ d h'. h' ≡ h} (value_or (e.dialer_for control_plane)) _ h
        (value_or-Ends _ h λ a q. refl) λ a t q. at_value q

  build_authorizer-Ends :
      (o : Option AuthorizationOptions) (e : Option (Egress P)) (i : P.Informers) (h : Heap P)
      → (o ≢ none) ⊎ X
      → Ends X (λ a h'. h' ≡ h) (build_authorizer lib o e i h)
  unfolding build_authorizer
  build_authorizer-Ends none e i h (inl n) = absurd (n refl)
  build_authorizer-Ends none e i h (inr x) = at_panic x
  build_authorizer-Ends (some o) e i h given =
      >>=-Ends (egress_dial lib e) _ h (egress_dial-Ends e h) λ d t q.
        value_or-Ends (lib.new_authorizer (record { options = o; informers = i; custom_dial = d }))
          t λ a r. q

  authenticated-Ends :
      (s : Options P) (client : P.Client) (i : P.Informers) (c : GenericConfig P) (h : Heap P)
      → Ends X (λ c' h'. (c'.loopback ≡ c.loopback) × (h' ≡ h)) (authenticated lib s client i c h)
  unfolding authenticated
  authenticated-Ends s client i c h =
      >>=-Ends {Q = λ u h'. h' ≡ h} (unless_error (apply_to_fields lib s client i c).0) _ h
        (unless_error-Ends (apply_to_fields lib s client i c).0 h refl) λ u t q. at_value (refl, q)

  authorized-Ends :
      (s : Options P) (i : P.Informers) (c : GenericConfig P) (h : Heap P)
      → (s.authorization ≢ none) ⊎ X
      → Ends X (λ a h'. h' ≡ h) (authorized lib s i c h)
  unfolding authorized
  authorized-Ends s i c h given =
      failing-Ends "invalid authorization config: "
        (build_authorizer lib s.authorization c.egress_selector i) h
        (build_authorizer-Ends s.authorization c.egress_selector i h given)

  secured-Ends :
      (s : Options P) (loopback : Loopback) (c : GenericConfig P) (h : Heap P)
      → (s.authorization ≢ none) ⊎ X
      → Ends X (λ p h'. (p.1.loopback ≡ some loopback) × (h' ≡ h)) (secured lib s loopback c h)
  unfolding secured
  secured-Ends s loopback c h given =
      >>=-Ends {Q = λ d h'. h' ≡ h}
        (value_or (wrapped "failed to create real external clientset: " (lib.new_client loopback)))
        _ h (value_or-Ends _ h λ a q. refl)
        λ client h1 t1.
          >>=-Ends
            (authenticated lib s client (lib.new_informers client)
              (record c { loopback = some loopback }))
            _ h1 (authenticated-Ends s client _ _ h1)
            λ c2 h2 r2.
              >>=-Ends {Q = λ d h'. h' ≡ h2} (authorized lib s (lib.new_informers client) c2) _ h2
                (authorized-Ends s (lib.new_informers client) c2 h2 given)
                λ a h3 t3.
                  >>=-Ends (deref s.authorization) _ h3 (deref-Ends s.authorization h3 given)
                    λ o h4 r4. at_value (
                      with_rbac_hook-loopback lib o (record c2 { authorizer = some a }) ∙ r2.0,
                      r4.1 ∙ t3 ∙ r2.1 ∙ t1,
                    )

  with_flow_control-Ends :
      (r : RequestOptions) (client : P.Client) (i : P.Informers) (c : GenericConfig P) (h : Heap P)
      → Ends X
          (λ c' h'.
            (((lib.enabled api_priority_and_fairness && r.enable_priority_and_fairness) ≡ true)
              → Controlled lib r i c'.flow_control)
            × (h' ≡ h))
          (with_flow_control lib r client i c h)
  unfolding with_flow_control
  with_flow_control-Ends r client i c h =
      by_gate (lib.enabled api_priority_and_fairness && r.enable_priority_and_fairness)
    where
      by_gate :
          (b : Bool)
          → Ends X
              (λ c' h'. ((b ≡ true) → Controlled lib r i c'.flow_control) × (h' ≡ h))
              ((if b
                  then (value_or (build_priority_and_fairness lib r client i) >>= λ flow.
                      give (record c { flow_control = some flow }))
                  else give c)
                h)
      by_gate true =
          >>=-Ends
            {Q = λ flow h'. (build_priority_and_fairness lib r client i ≡ inr flow) × (h' ≡ h)}
            (value_or (build_priority_and_fairness lib r client i)) _ h
            (value_or-Ends (build_priority_and_fairness lib r client i) h λ flow e. (e, refl))
            λ flow t q. at_value (λ _. (client, flow, q.0, refl), q.1)
      by_gate false = at_value (λ e. cc, refl)

-- A program that leaves all maps that there were as they were.
pub record Extends {P : Parts} (h h' : Heap P) : Type 0 where
  pub grows : h.next ≤ h'.next
  pub old_kept : (r : ℕ) → r < h.next → h'.maps r ≡ h.maps r

pub Extends-trans : {P : Parts} {h h' h'' : Heap P} → Extends h h' → Extends h' h'' → Extends h h''
Extends-trans a b = record {
  grows = omega (arith, a.grows, b.grows);
  old_kept = λ r below. ground (arith, a.old_kept r, b.old_kept r, a.grows);
}

-- A new map, and then work on it alone.
pub fresh-Extends : {P : Parts} (h h' : Heap P) → Touches h.next (new_map h).1 h' → Extends h h'
fresh-Extends h h' t = record {
  grows = omega (arith, t.next_kept);
  old_kept = λ r below. ground (arith, t.others_kept r);
}

pub touched-Extends :
    {P : Parts} {ref : ℕ} {h h1 h2 : Heap P}
    → h.next ≤ ref
    → Extends h h1
    → Touches ref h1 h2
    → Extends h h2
touched-Extends new e t = record {
  grows = omega (arith, e.grows, t.next_kept);
  old_kept = λ r below. ground (arith, t.others_kept r, e.old_kept r);
}

module _ {P : Parts} {X : Type 0} {lib : Calls P} (kept : KeepsLoopback X lib) where
  same_heap : {ref : ℕ} {h h' h'' : Heap P} → h'' ≡ h' → Touches ref h h' → Touches ref h h''
  same_heap e t = rw e t

  pub build_generic_config-Ends :
      (s : Options P) (h : Heap P)
      → (s.authorization ≢ none) ⊎ X
      → Ends X
          (λ b h'.
            ((b.hooks ≡ h.next) × (h'.next ≡ suc h.next) × Extends h h')
            × (((lib.enabled api_priority_and_fairness && s.requests.enable_priority_and_fairness)
                  ≡ true)
                → Controlled lib s.requests b.informers b.config.flow_control))
          (build_generic_config lib s h)
  unfolding build_generic_config
  build_generic_config-Ends s h given =
      let ref = h.next in
      let h0 = (new_map h).1 in
      >>=-Ends (apply_options lib ref) _ h0 (apply_options-Ends kept ref h0) λ c1 h1 r1.
        >>=-Ends (apply_storage lib ref c1) _ h1 (apply_storage-Ends kept ref h0 c1 h1 r1.0 r1.1)
          λ p2 h2 r2.
            >>=-Ends (deref p2.1.loopback) _ h2 (deref-Ends p2.1.loopback h2 r2.0) λ l h3 r3.
              let t3 = same_heap r3.1 r2.1 in
              >>=-Ends (secured lib s (for_itself lib l) p2.1) _ h3
                (secured-Ends lib s (for_itself lib l) p2.1 h3 given)
                λ p4 h4 r4.
                  then_call kept ref h0 lib.audit p4.1 h4 _ kept.audit
                    (inl (λ q. ground (arith, r4.0, q))) (same_heap r4.1 t3)
                    λ c5 h5 g5 t5.
                      >>=-Ends (deref c5.loopback) _ h5 (deref-Ends c5.loopback h5 g5) λ l6 h6 r6.
                        let resolver =
                          build_service_resolver lib s.enable_aggregator_routing l6.host p4.0.1 in
                        let made = wrapped "failed to create admission plugin initializer: " (
                          lib.new_admission p4.0.1 l6 c5.egress_selector resolver
                            c5.tracer_provider) in
                        >>=-Ends {Q = λ a h'. Touches ref h0 h'} (value_or made) _ h6
                          (value_or-Ends made h6 λ a e. same_heap r6.1 t5)
                          λ p7 h7 t7.
                            let call = lib.admission p4.0.1 (some (for_itself lib l)) p7.0 in
                            >>=-Ends (called call ref c5) _ h7 (called-Ends call ref c5 h7)
                              λ c8 h8 r8.
                                >>=-Ends (with_flow_control lib s.requests p4.0.0 p4.0.1 c8) _ h8
                                  (with_flow_control-Ends lib s.requests p4.0.0 p4.0.1 c8 h8)
                                  λ c9 h9 r9.
                                    let t9 = same_heap r9.1 (Touches-trans t7 r8.1) in
                                    at_value ((refl, t9.next_kept, fresh-Extends h h9 t9), r9.0)

module _ {P : Parts} (lib : Calls P) where
  -- If SecureServing sets a loopback client and the other calls leave it there, and authorization options are
  -- given, then buildGenericConfig does not panic.
  pub build_generic_config-safe :
      (s : Options P) (h : Heap P)
      → KeepsLoopback ⊥ lib
      → s.authorization ≢ none
      → (build_generic_config lib s h).0 ≢ panicked
  build_generic_config-safe s h kept given =
      Ends-safe (build_generic_config-Ends kept s h (inl given))

  -- Where buildGenericConfig returns with the gate and the option for flow control set, the configuration has a
  -- flow control made for the sum of the two limits on requests, which is positive.
  pub build_generic_config-flow_control :
      (s : Options P) (h h' : Heap P) (b : Built P)
      → build_generic_config lib s h ≡ (returned b, h')
      → lib.enabled api_priority_and_fairness ≡ true
      → s.requests.enable_priority_and_fairness ≡ true
      → (client : P.Client) × (positive (
            wrap64
              (sum s.requests.max_requests_in_flight s.requests.max_mutating_requests_in_flight))
          ≡ true)
        × (b.config.flow_control
            ≡ some (
                lib.new_flow_control b.informers client
                  (wrap64 (
                    sum s.requests.max_requests_in_flight
                      s.requests.max_mutating_requests_in_flight))
                  (quarter s.requests.request_timeout)))
  unfolding build_priority_and_fairness
  build_generic_config-flow_control s h h' b ends gate asked =
      let (_, controlled) =
        Ends-returned (build_generic_config-Ends (anything lib) s h (inr tt)) ends in
      let (client, flow, made, set) = controlled (ground (arith, gate, asked)) in
      (client, ground (arith, made), ground (arith, made, set))
