-- ===== src/ApiServer/Generic/Build/Laws.antt =====
-- server.go: when buildGenericConfig panics, what it does to the maps of hooks, and the flow control it sets.
use hohapiserver.Base.{
  ℕ, String, ◌≡◌, refl, ◌≢◌, arith, Bool, true, false, none, if◌then◌else◌, ◌⊎◌, inr, Program, give,
  value_or, ◌>>=◌, Ends, at_value, >>=-Ends, value_or-Ends, Ends-weaken,
}
use hohapiserver.ApiServer.Generic.{
  Parts, legacy, api_server_tracing, open_api_v3, GenericConfig, StorageFactory, HookMap, Heap,
  Call, written,
}
use hohapiserver.ApiServer.Generic.Build.{Calls, called, apply_options, apply_storage}

module _ {P : Parts} where
  -- A step that works on the one map with that number.
  pub record Touches (ref : ℕ) (h h' : Heap P) : Type 0 where
    pub next_kept : h'.next ≡ h.next
    pub others_kept : (r : ℕ) → r ≢ ref → h'.maps r ≡ h.maps r

  pub Touches-refl : (ref : ℕ) (h : Heap P) → Touches ref h h
  Touches-refl ref h = record { next_kept = refl; others_kept = λ r n. refl }

  pub Touches-trans :
      {ref : ℕ} {h h' h'' : Heap P} → Touches ref h h' → Touches ref h' h'' → Touches ref h h''
  Touches-trans a b = record {
    next_kept = ground (arith, a.next_kept, b.next_kept);
    others_kept = λ r n. ground (arith, a.others_kept r n, b.others_kept r n);
  }

  pub written-Touches :
      (ref : ℕ) (hooks : HookMap P) (h : Heap P) → Touches ref h (written ref hooks h)
  written-Touches ref hooks h = record { next_kept = refl; others_kept = λ r n. ground arith }

  module _ {X : Type 0} where
    -- A call of a library works on the map of its configuration, and does not panic.
    pub called-Ends :
        {A : Type 0} (call : GenericConfig P → HookMap P → (String ⊎ A) × HookMap P) (ref : ℕ)
        (c : GenericConfig P) (h : Heap P)
        → Ends X
            (λ (a : A) h'. (call c (h.maps ref) ≡ (inr a, h'.maps ref)) × Touches ref h h')
            (called call ref c h)
    called-Ends call ref c h =
        value_or-Ends (call c (h.maps ref)).0 (written ref (call c (h.maps ref)).1 h)
          (λ a e. (ground (arith, e), written-Touches ref (call c (h.maps ref)).1 h))

module _ {P : Parts} (X : Type 0) where
  -- The configuration has a loopback client; with `Unit` for `X` this says nothing.
  abbrev pub Given : GenericConfig P → Type 0
  Given c = (c.loopback ≢ none) ⊎ X

  abbrev pub Keeps : Call P → Type 0
  Keeps call =
      (c c' : GenericConfig P) (m m' : HookMap P) → call c m ≡ (inr c', m') → Given c → Given c'

  -- SecureServing.ApplyTo sets the loopback client, and the calls behind it leave it there.
  pub record KeepsLoopback (lib : Calls P) : Type 0 where
    pub secure_serving :
        (c c' : GenericConfig P) (m m' : HookMap P)
        → lib.secure_serving c m ≡ (inr c', m')
        → Given c'
    pub features : Keeps lib.features
    pub api_enablement : Keeps (lib.api_enablement legacy)
    pub egress_selector : Keeps lib.egress_selector
    pub traces : Keeps lib.traces
    pub apply_etcd : (storage : StorageFactory P) → Keeps (lib.apply_etcd storage)
    pub audit : Keeps lib.audit

-- Where nothing is to be shown of a panic.
abbrev pub anything : {P : Parts} (lib : Calls P) → KeepsLoopback (Unit {0}) lib
anything lib = record {
  secure_serving = λ c c' m m' e. inr tt;
  features = λ c c' m m' e g. inr tt;
  api_enablement = λ c c' m m' e g. inr tt;
  egress_selector = λ c c' m m' e g. inr tt;
  traces = λ c c' m m' e g. inr tt;
  apply_etcd = λ storage c c' m m' e g. inr tt;
  audit = λ c c' m m' e g. inr tt;
}

module _ {P : Parts} {X : Type 0} {lib : Calls P} (kept : KeepsLoopback X lib) (ref : ℕ)
    (h0 : Heap P) where
  -- The next call of a chain.
  pub then_call :
      {B : Type 0} {R : B → Heap P → Type 0} (call : Call P) (c : GenericConfig P) (h : Heap P)
      (f : GenericConfig P → Program (Heap P) B)
      → Keeps X call
      → Given X c
      → Touches ref h0 h
      → ((c' : GenericConfig P) (h' : Heap P) → Given X c' → Touches ref h0 h' → Ends X R (f c' h'))
      → Ends X R ((called call ref c >>= f) h)
  then_call call c h f keeps given before next =
      >>=-Ends (called call ref c) f h (called-Ends call ref c h) λ c' h' r.
        next c' h' (keeps c c' (h.maps ref) (h'.maps ref) r.0 given) (Touches-trans before r.1)

  if_called :
      (b : Bool) (call : Call P) (c : GenericConfig P) (h : Heap P)
      → Keeps X call
      → Given X c
      → Touches ref h0 h
      → Ends X
          (λ c' h'. Given X c' × Touches ref h0 h')
          ((if b then called call ref c else give c) h)
  if_called true call c h keeps given before =
      Ends-weaken (called-Ends call ref c h)
        λ c' h' r. (keeps c c' (h.maps ref) (h'.maps ref) r.0 given, Touches-trans before r.1)
  if_called false call c h keeps given before = at_value (given, before)

  with_v3 :
      (b : Bool) (c : GenericConfig P)
      → Given X c
      → Given X (if b then record c { has_open_api_v3 = true } else c)
  with_v3 true c given = given
  with_v3 false c given = given

  pub apply_options-Ends : Ends X (λ c h'. Given X c × Touches ref h0 h') (apply_options lib ref h0)
  unfolding apply_options
  apply_options-Ends =
      >>=-Ends (called lib.generic_options ref lib.new_config) _ h0
        (called-Ends lib.generic_options ref lib.new_config h0)
        λ c1 h1 r1.
          >>=-Ends (called lib.secure_serving ref c1) _ h1
            (called-Ends lib.secure_serving ref c1 h1)
            λ c2 h2 r2.
              then_call lib.features c2 h2 _ kept.features
                (kept.secure_serving c1 c2 (h1.maps ref) (h2.maps ref) r2.0)
                (Touches-trans r1.1 r2.1)
                λ c3 h3 g3 t3.
                  then_call (lib.api_enablement legacy) c3 h3 _ kept.api_enablement g3 t3
                    λ c4 h4 g4 t4.
                      then_call lib.egress_selector c4 h4 _ kept.egress_selector g4 t4
                        λ c5 h5 g5 t5.
                          >>=-Ends
                            (if lib.enabled api_server_tracing
                              then called lib.traces ref c5
                              else give c5)
                            _ h5
                            (if_called (lib.enabled api_server_tracing) lib.traces c5 h5 kept.traces
                              g5 t5)
                            λ c6 h6 r6. at_value (with_v3 (lib.enabled open_api_v3) c6 r6.0, r6.1)

  pub apply_storage-Ends :
      (c : GenericConfig P) (h : Heap P)
      → Given X c
      → Touches ref h0 h
      → Ends X (λ p h'. Given X p.1 × Touches ref h0 h') (apply_storage lib ref c h)
  unfolding apply_storage
  apply_storage-Ends c h given before =
      >>=-Ends (value_or (lib.complete_storage c.merged_resource_config)) _ h
        (value_or-Ends _ h λ a e. before)
        λ completed h1 t1.
          >>=-Ends (value_or (lib.new_factory completed)) _ h1 (value_or-Ends _ h1 λ a e. t1)
            λ factory h2 t2.
              then_call (lib.apply_etcd _) c h2 _ (kept.apply_etcd _) given t2
                λ c3 h3 g3 t3. at_value (g3, t3)
