-- ===== src/GlobalHub/Tests/Policies.antt =====
-- The policy controller at concrete inputs.
use hohapiserver.Base.{arith, ◌≡◌, refl, some, [], ◌∷◌}
use hohapiserver.Kube.{get, get_object, update_status, ok, sent}
use hohapiserver.Kube.Samples.{policies, start}
use hohapiserver.GlobalHub.Samples.{
  states, new_count, summary, status_fields, global_policy, holding, policy_of_hub1,
}
use hohapiserver.GlobalHub.Compliance.{
  new_cluster_summary, merge, encode, decode, merge_loop, add32, sub32,
}
use hohapiserver.GlobalHub.Compliance.Totals.{
  IsConsistent, merge-IsConsistent, sum_compliant, sum_noncompliant,
}
use hohapiserver.GlobalHub.Compliance.Entries.{entry, merge-entry, merge_idem}
use hohapiserver.GlobalHub.Compliance.Codec.{decode-encode}
use hohapiserver.GlobalHub.Policy.{with_summary, update_global_hub_policy}
use hohapiserver.GlobalHub.Policy.Laws.{Writes, update_global_hub_policy-Writes}

merged : merge new_count summary ≡ record {
  compliant = 5;
  noncompliant = 3;
  summaries = new_count ∷ record { name = "hub2"; compliant = 3; noncompliant = 2 } ∷ [];
}
unfolding merge merge_loop add32 sub32
merged = refl

summary-IsConsistent : IsConsistent summary
unfolding sum_compliant sum_noncompliant
summary-IsConsistent = record {
  in_range = ((omega arith, omega arith), ((omega arith, omega arith), tt));
  compliant_sum = refl;
  noncompliant_sum = refl;
}

merge-IsConsistent_example : IsConsistent (merge new_count summary)
merge-IsConsistent_example =
    merge-IsConsistent new_count summary (omega arith, omega arith) summary-IsConsistent

merge-entry_example : entry "hub1" (merge new_count summary).summaries ≡ some new_count
merge-entry_example = merge-entry new_count summary "hub1"

merge_idem_example : merge new_count (merge new_count summary) ≡ merge new_count summary
merge_idem_example = merge_idem new_count summary (omega arith, omega arith) summary-IsConsistent

decodes_summary : decode (encode summary) ≡ ok summary
decodes_summary =
    decode-encode summary (omega arith) (omega arith)
      ((omega arith, omega arith), ((omega arith, omega arith), tt))

update_global_hub_policy-Writes_example :
    let t = merge (new_cluster_summary "hub1" states) summary in
    (update_global_hub_policy (holding global_policy) policies policy_of_hub1 states "default" start
      ≡ (
        ok tt,
        record {
          server = 2;
          log =
              sent (update_status policies "default" (with_summary status_fields t global_policy))
              ∷ sent (get_object policies "default" "p1")
              ∷ [];
        },
      ))
    × Writes global_policy (with_summary status_fields t global_policy) status_fields t
    × IsConsistent t
unfolding get
update_global_hub_policy-Writes_example =
    update_global_hub_policy-Writes (holding global_policy) policies policy_of_hub1 states "default"
      global_policy status_fields summary start refl refl decodes_summary summary-IsConsistent
