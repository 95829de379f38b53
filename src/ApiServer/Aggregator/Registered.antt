-- ===== src/ApiServer/Aggregator/Registered.antt =====
-- aggregator.go: where the registered APIServices come from.
use hohapiserver.Base.{
  String, ◌==◌, eq_iff, eq_refl, arith, ◌≡◌, refl, ◌⊎◌, inl, inr, true, none, some, List, [], ◌∷◌,
  map, elem, All, Bool-cases, Option-cases,
}
use Prim.Native.String
use text.Mathlib.Text.{starts_with}
use hohapiserver.ApiServer.Aggregator.{
  GroupVersion, ApiService, api_version_priorities, priority_of, make_api_service, split_slash,
  core_v1, service_of_tokens, service_of_path, api_services_to_register,
}

-- A registered service has the priority of its group and version in the table, and comes from a listed
-- path: from /api/v1, or from one that splits into four tokens of which the last two name it.
pub record FromPath (paths : List String) (s : ApiService) : Type 0 where
  pub path : String
  pub listed : elem path paths ≡ true
  pub has_priority : priority_of s.group_version api_version_priorities ≡ some s.priority
  pub names_it :
      ((path ≡ "/api/v1") × (s.group_version ≡ core_v1))
      ⊎ ((root : String) × (apis : String) × (split_slash path
            ≡ root ∷ apis ∷ s.group_version.group ∷ s.group_version.version ∷ []))

FromPath-cons :
    (p : String) (paths : List String) (l : List ApiService)
    → All (FromPath paths) l
    → All (FromPath (p ∷ paths)) l
unfolding elem
FromPath-cons p paths [] h = tt
FromPath-cons p paths (s ∷ ss) (f, h) = (
  record {
    path = f.path;
    listed = ground (arith, f.listed);
    has_priority = f.has_priority;
    names_it = f.names_it;
  },
  FromPath-cons p paths ss h,
)

make_cases :
    (gv : GroupVersion)
    → (make_api_service gv ≡ none)
      ⊎ ((s : ApiService) × (make_api_service gv ≡ some s)
          × (s.group_version ≡ gv)
          × (priority_of gv api_version_priorities ≡ some s.priority))
unfolding make_api_service
make_cases gv = elim (Option-cases (priority_of gv api_version_priorities)) [
  | inl e ↦ inl (ground (arith, e))
  | inr (p, e) ↦ inr (
    record {
      name = String.◌++◌ gv.version (String.◌++◌ "." gv.group);
      group_version = gv;
      priority = p;
    },
    ground (arith, e),
    refl,
    e,
  )
]

-- The service of the core group is never nil.
core_service :
    (s : ApiService) × (make_api_service core_v1 ≡ some s)
    × (s.group_version ≡ core_v1)
    × (priority_of core_v1 api_version_priorities ≡ some s.priority)
unfolding make_api_service priority_of
core_service = (_, refl, refl, refl)

service_of_tokens-cases :
    (ts : List String)
    → (service_of_tokens ts ≡ none)
      ⊎ ((s : ApiService) × (service_of_tokens ts ≡ some (some s))
          × (priority_of s.group_version api_version_priorities ≡ some s.priority)
          × ((root : String) × (apis : String) × (ts
                ≡ root ∷ apis ∷ s.group_version.group ∷ s.group_version.version ∷ [])))
unfolding service_of_tokens
service_of_tokens-cases (a ∷ b ∷ g ∷ v ∷ []) =
    elim (make_cases (record { group = g; version = v })) [
      | inl e ↦ inl (ground (arith, e))
      | inr (s, e, k, p) ↦ inr (s, ground (arith, e), rw k p, (a, b, ground (arith, k)))
    ]
service_of_tokens-cases [] = inl refl
service_of_tokens-cases (a ∷ []) = inl refl
service_of_tokens-cases (a ∷ b ∷ []) = inl refl
service_of_tokens-cases (a ∷ b ∷ g ∷ []) = inl refl
service_of_tokens-cases (a ∷ b ∷ g ∷ v ∷ w ∷ ts) = inl refl

service_of_path-cases :
    (p : String) (later : List String)
    → (service_of_path p ≡ none)
      ⊎ ((s : ApiService) × (service_of_path p ≡ some (some s)) × FromPath (p ∷ later) s)
unfolding service_of_path elem
service_of_path-cases p later = elim (Bool-cases (p == "/api/v1")) [
  | inl core ↦
      let (s, e, k, q) = core_service in
      inr (
        s,
        rw core (rw e),
        record {
          path = p;
          listed = rw (eq_refl p);
          has_priority = rw k q;
          names_it = inl ((eq_iff _ _).0 core, k);
        },
      )
  | inr other ↦ elim (Bool-cases (starts_with p "/apis/")) [
    | inl apis ↦ elim (service_of_tokens-cases (split_slash p)) [
      | inl e ↦ inl (rw (other, apis) e)
      | inr (s, e, q, t) ↦ inr (
        s,
        rw (other, apis) e,
        record { path = p; listed = rw (eq_refl p); has_priority = q; names_it = inr t },
      )
    ]
    | inr e ↦ inl (rw (other, e))
  ]
]

-- No nil pointer is registered: the registration adds the same services to the sync and to the result, and
-- each has the priority of the table and comes from a listed path.
pub api_services_to_register-FromPath :
    (paths : List String)
    → (l : List ApiService) × (api_services_to_register paths
        ≡ record { synced = map some l; services = map some l })
      × All (FromPath paths) l
unfolding api_services_to_register
api_services_to_register-FromPath [] = ([], refl, tt)
api_services_to_register-FromPath (p ∷ later) =
    let (l, e, h) = api_services_to_register-FromPath later in
    let more = FromPath-cons p later l h in
    elim (service_of_path-cases p later) [
      | inl n ↦ (l, rw (n, e), more)
      | inr (s, q, f) ↦ (s ∷ l, rw (q, e), (f, more))
    ]
