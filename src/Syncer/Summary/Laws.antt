-- ===== src/Syncer/Summary/Laws.antt =====
-- The summary of syncer/statussyncer.go against an independent description: which clusters each of
-- its three lists names.
use hohapiserver.Base.{
  String, ◌==◌, arith, ◌≡◌, ◌∙◌, Bool, true, false, List, [], ◌∷◌, ◌++◌, if◌then◌else◌,
}
use mathlib.Core.Path.{subst}
use mathlib.Core.List.{append_assoc, append-nil}
use hohapiserver.Kube.{
  Value, null, str, arr, obj, Values, nil, cons, get, Unstructured, Object, nothing, unstructured,
  ok,
}
use hohapiserver.Kube.Outcomes.{>>=-ok}
use hohapiserver.Syncer.Controller.{ManagedClustersStatus}
use hohapiserver.Syncer.Summary.{
  condition_available, append_by_status, scan_conditions, add_conditions, add_status, addon_names,
  add_cluster, add_clusters,
}

-- How a managed cluster is reported.
pub data Health : Type 0 where
  healthy unhealthy undecided unlisted : Health

abbrev pub of_status : Value → Health
of_status (str s) = if s == "True" then healthy else if s == "False" then unhealthy else undecided
of_status _ = undecided

-- The conditions of the type ManagedClusterConditionAvailable decide, the first of them alone.
unfoldable pub of_conditions : Values → Health
of_conditions nil = unlisted
of_conditions (cons (obj c) rest) =
    let later = of_conditions rest in
    elim (get "type" c) [
      | str t ↦ if t == condition_available then of_status (get "status" c) else later
      | _ ↦ later
    ]
of_conditions (cons _ rest) = of_conditions rest

abbrev of_condition_list : Value → Health
of_condition_list (arr cs) = of_conditions cs
of_condition_list _ = undecided

abbrev of_cluster_status : Value → Health
of_cluster_status (obj s) = of_condition_list (get "conditions" s)
of_cluster_status _ = undecided

abbrev pub health : Unstructured → Health
health u = of_cluster_status (get "status" u.content)

-- The status with a cluster of that health added.
abbrev pub report : Health → String → ManagedClustersStatus → ManagedClustersStatus
report healthy name s = record s { available = s.available ++ name ∷ [] }
report unhealthy name s = record s { unavailable = s.unavailable ++ name ∷ [] }
report undecided name s = record s { unknown = s.unknown ++ name ∷ [] }
report unlisted name s = s

scan_conditions-report :
    (cs : Values) (name : String) (s t : ManagedClustersStatus)
    → scan_conditions cs name s ≡ ok t
    → t ≡ report (of_conditions cs) name s
unfolding scan_conditions of_conditions append_by_status
scan_conditions-report nil name s t h = ground arith
scan_conditions-report (cons (obj c) rest) name s t h =
    ground (arith, scan_conditions-report rest name s t)
scan_conditions-report (cons v rest) name s t h = cc

add_conditions-report :
    (v : Value) (name : String) (s t : ManagedClustersStatus)
    → add_conditions v name s ≡ ok t
    → t ≡ report (of_condition_list v) name s
unfolding add_conditions
add_conditions-report (arr cs) name s t h = scan_conditions-report cs name s t h
add_conditions-report null name s t h = ground arith
add_conditions-report _ name s t h = ground arith

add_status-report :
    (v : Value) (name : String) (s t : ManagedClustersStatus)
    → add_status v name s ≡ ok t
    → t ≡ report (of_cluster_status v) name s
unfolding add_status
add_status-report (obj m) name s t h = add_conditions-report (get "conditions" m) name s t h
add_status-report null name s t h = ground arith
add_status-report _ name s t h = ground arith

add_cluster-report :
    (u : Unstructured) (s t : ManagedClustersStatus)
    → add_cluster u s ≡ ok t
    → t ≡ report (health u) u.metadata.name s
unfolding add_cluster
add_cluster-report u s t h = add_status-report (get "status" u.content) u.metadata.name s t h

abbrev pub same : Health → Health → Bool
same healthy healthy = true
same unhealthy unhealthy = true
same undecided undecided = true
same unlisted unlisted = true
same _ _ = false

-- The names of the clusters of one health, in the order of the cache.
unfoldable pub names_of : Health → List Object → List String
names_of h (unstructured u ∷ os) =
    let rest = names_of h os in if same h (health u) then u.metadata.name ∷ rest else rest
names_of h (_ ∷ os) = names_of h os
names_of h [] = []

-- What three lists gain.
pub record Gains (s t : ManagedClustersStatus) (a b c : List String) : Type 0 where
  pub available_gain : t.available ≡ s.available ++ a
  pub unavailable_gain : t.unavailable ≡ s.unavailable ++ b
  pub unknown_gain : t.unknown ≡ s.unknown ++ c

Gains-report :
    (h : Health) (name : String) (s t : ManagedClustersStatus) (a b c : List String)
    → Gains (report h name s) t a b c
    → Gains s t
        (if same healthy h then name ∷ a else a)
        (if same unhealthy h then name ∷ b else b)
        (if same undecided h then name ∷ c else c)
Gains-report healthy name s t a b c g = record {
  available_gain = g.available_gain ∙ append_assoc s.available (name ∷ []) a;
  unavailable_gain = g.unavailable_gain;
  unknown_gain = g.unknown_gain;
}
Gains-report unhealthy name s t a b c g = record {
  available_gain = g.available_gain;
  unavailable_gain = g.unavailable_gain ∙ append_assoc s.unavailable (name ∷ []) b;
  unknown_gain = g.unknown_gain;
}
Gains-report undecided name s t a b c g = record {
  available_gain = g.available_gain;
  unavailable_gain = g.unavailable_gain;
  unknown_gain = g.unknown_gain ∙ append_assoc s.unknown (name ∷ []) c;
}
Gains-report unlisted name s t a b c g = record {
  available_gain = g.available_gain;
  unavailable_gain = g.unavailable_gain;
  unknown_gain = g.unknown_gain;
}

pub add_clusters-Gains :
    (os : List Object) (s t : ManagedClustersStatus)
    → add_clusters os s ≡ ok t
    → Gains s t (names_of healthy os) (names_of unhealthy os) (names_of undecided os)
unfolding add_clusters names_of
add_clusters-Gains [] s t h = record {
  available_gain = ground (arith, append-nil s.available);
  unavailable_gain = ground (arith, append-nil s.unavailable);
  unknown_gain = ground (arith, append-nil s.unknown);
}
add_clusters-Gains (unstructured u ∷ os) s t h =
    let (s', later, first) = >>=-ok (add_cluster u s) (add_clusters os) h in
    let gains = add_clusters-Gains os s' t later in
    Gains-report (health u) u.metadata.name s t _ _ _ (
      subst (λ r. Gains r t (names_of healthy os) (names_of unhealthy os) (names_of undecided os))
        (add_cluster-report u s s' first) gains)
add_clusters-Gains (nothing ∷ os) s t h = cc
add_clusters-Gains (_ ∷ os) s t h = cc

unfoldable pub names : List Object → List String
names [] = []
names (unstructured u ∷ os) = u.metadata.name ∷ names os
names (_ ∷ os) = names os

pub addon_names-names :
    (os : List Object) (acc l : List String) → addon_names os acc ≡ ok l → l ≡ acc ++ names os
unfolding addon_names names
addon_names-names [] acc l h = ground (arith, append-nil acc)
addon_names-names (unstructured u ∷ os) acc l h =
    addon_names-names os (acc ++ u.metadata.name ∷ []) l h
    ∙ append_assoc acc (u.metadata.name ∷ []) (names os)
addon_names-names (nothing ∷ os) acc l h = cc
addon_names-names (_ ∷ os) acc l h = cc
