-- ===== src/Pipeline/Tests.antt =====
-- A policy on its way through the components at a concrete input: a policy of the namespace `default` and the
-- syncer `hub1`.
use hohapiserver.Base.{ℕ, suc, ◌==◌, if◌then◌else◌, some, [], ◌∷◌}
use hohapiserver.Kube.{get_object, found, refused, not_found, Unstructured, Server}
use hohapiserver.Kube.Samples.{sample, label_key, spec_of}
use hohapiserver.GlobalHub.Samples.{global_policy}

-- The policy as the regional hub keeps it.
abbrev kept : Unstructured
kept = sample "default" "p1" (some ((label_key, "default") ∷ [])) (spec_of "inform")

-- A global hub that holds the policy in the user's namespace alone.
abbrev first_time : Server ℕ
first_time (get_object _ namespace _) n =
    (if namespace == "hub1" then refused not_found else found global_policy, suc n)
first_time _ n = (found global_policy, suc n)
