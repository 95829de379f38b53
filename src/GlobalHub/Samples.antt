-- ===== src/GlobalHub/Samples.antt =====
-- A summary, the policies that store it and servers that hold them, for the tests.
use hohapiserver.Base.{ℕ, suc, String, List, [], ◌∷◌, none, some, true}
use hohapiserver.Kube.{
  str, obj, field, end, Fields, Unstructured, unstructured, found, Outcome, ok, M, Server,
}
use hohapiserver.Kube.Samples.{sample, label_key, bare_policy, start}
use hohapiserver.GlobalHub.Compliance.{
  ComplianceState, compliant_state, noncompliant_state, other_state, ClusterSummary,
  ComplianceSummary, encode,
}
use hohapiserver.GlobalHub.Policy.{Policy}
use hohapiserver.GlobalHub.Generic.{Hub, Keys}

abbrev pub states : List ComplianceState
states = compliant_state ∷ noncompliant_state ∷ compliant_state ∷ other_state "Pending" ∷ []

-- The totals of a count that the policy of hub1 changes from 4 and 0 to 2 and 1.
abbrev pub new_count : ClusterSummary
new_count = record { name = "hub1"; compliant = 2; noncompliant = 1 }

abbrev pub summary : ComplianceSummary
summary = record {
  compliant = 7;
  noncompliant = 2;
  summaries =
      record { name = "hub1"; compliant = 4; noncompliant = 0 }
      ∷ record { name = "hub2"; compliant = 3; noncompliant = 2 }
      ∷ [];
}

abbrev pub status_fields : Fields
status_fields = field "details" (str "kept") (field "complianceSummary" (encode summary) end)

abbrev pub global_policy : Unstructured
global_policy =
    sample "default" "p1" (some ((label_key, "default") ∷ []))
      (field "status" (obj status_fields) end)

abbrev pub holding : Unstructured → Server ℕ
holding u q n = (found u, suc n)

abbrev pub policy_of_hub1 : Policy
policy_of_hub1 = record { name = "p1"; namespace = "hub1"; statuses = some states }

abbrev pub to_policy : Unstructured → Outcome Policy
to_policy u =
    ok (record { name = u.metadata.name; namespace = u.metadata.namespace; statuses = some states })

-- A retry that never tries again.
abbrev pub once : M ℕ String (Unit {0}) → M ℕ String (Unit {0})
once m = m

-- Keys as client-go splits them, for the one key of the tests.
abbrev pub keys : Keys
keys = record { key_of = λ o. ok "default/b1"; split = λ key. ok ("default", "b1") }

abbrev pub binding_hub : Hub ℕ
binding_hub = record {
  world = start;
  store =
      λ namespace name. record { object = unstructured bare_policy; exists = true; error = none };
}
