-- ===== src/GlobalHub/Compliance.antt =====
-- policy_controller.go: ComplianceSummary, the counting of one hub's clusters, the merge of that count
-- into the summary of a policy, and the JSON form of the summary in the policy's status.
pub mod Totals
pub mod Entries
pub mod Codec
use hohapiserver.Base.{
  ℕ, ◌+◌, ◌-◌, ◌%◌, String, ◌==◌, ltb, if◌then◌else◌, Bool, false, ◌||◌, List, [], ◌∷◌, ◌++◌,
}
use hohapiserver.Kube.{
  Value, null, uint, str, arr, obj, Values, nil, cons, Fields, end, field, get, conversion, Outcome,
  ok, fail,
}
use hohapiserver.Kube.Outcomes.{◌>>=◌}

-- The counters are uint32 and wrap around.
abbrev pub u32_mod : ℕ
u32_mod = 4294967296

unfoldable pub add32 : ℕ → ℕ → ℕ
add32 a b = (a + b) % u32_mod

unfoldable pub sub32 : ℕ → ℕ → ℕ
sub32 a b = (a + u32_mod - b) % u32_mod

pub record ClusterSummary : Type 0 where
  pub name : String
  pub compliant : ℕ
  pub noncompliant : ℕ

pub record ComplianceSummary : Type 0 where
  pub compliant : ℕ
  pub noncompliant : ℕ
  pub summaries : List ClusterSummary

-- policyv1.ComplianceState of one managed cluster.
pub data ComplianceState : Type 0 where
  compliant_state noncompliant_state : ComplianceState
  other_state : String → ComplianceState

-- The switch in the loop over syncerPolicy.Status.Status.
abbrev count_state : ComplianceState → ClusterSummary → ClusterSummary
count_state compliant_state s = record s { compliant = add32 s.compliant 1 }
count_state noncompliant_state s = record s { noncompliant = add32 s.noncompliant 1 }
count_state (other_state _) s = s

unfoldable pub count_states : List ComplianceState → ClusterSummary → ClusterSummary
count_states [] s = s
count_states (c ∷ rest) s = count_states rest (count_state c s)

-- newClusterSummary
unfoldable pub new_cluster_summary : String → List ComplianceState → ClusterSummary
unfolding count_states
new_cluster_summary name states =
    count_states states (record { name = name; compliant = 0; noncompliant = 0 })

-- What the loop over the summaries leaves: the totals, `exist`, and the slice.
pub record Merged : Type 0 where
  pub total_compliant : ℕ
  pub total_noncompliant : ℕ
  pub exist : Bool
  pub list : List ClusterSummary

unfoldable pub merge_loop : ClusterSummary → ℕ → ℕ → List ClusterSummary → Merged
unfolding add32 sub32
merge_loop new c n [] = record {
  total_compliant = c;
  total_noncompliant = n;
  exist = false;
  list = [];
}
merge_loop new c n (s ∷ rest) =
    let same = new.name == s.name in
    let later =
      merge_loop new (if same then add32 c (sub32 new.compliant s.compliant) else c)
        (if same then add32 n (sub32 new.noncompliant s.noncompliant) else n) rest in
    record later {
      exist = same || later.exist;
      list =
          (if same
            then record s { compliant = new.compliant; noncompliant = new.noncompliant }
            else s)
          ∷ later.list;
    }

-- The summary of the policy once the count of one hub is merged in.
unfoldable pub merge : ClusterSummary → ComplianceSummary → ComplianceSummary
unfolding merge_loop add32
merge new s =
    let m = merge_loop new s.compliant s.noncompliant s.summaries in
    if m.exist
    then record {
      compliant = m.total_compliant;
      noncompliant = m.total_noncompliant;
      summaries = m.list;
    }
    else record {
      compliant = add32 m.total_compliant new.compliant;
      noncompliant = add32 m.total_noncompliant new.noncompliant;
      summaries = m.list ++ new ∷ [];
    }

-- encoding/json with omitempty: a field at its zero value is left out.
abbrev with_uint : String → ℕ → Fields → Fields
with_uint key n rest = if ltb 0 n then field key (uint n) rest else rest

abbrev with_text : String → String → Fields → Fields
with_text key s rest = if s == "" then rest else field key (str s) rest

unfoldable pub encode_cluster : ClusterSummary → Value
encode_cluster s = obj (
    with_text "name" s.name
      (with_uint "compliant" s.compliant (with_uint "noncompliant" s.noncompliant end)))

unfoldable pub encode_list : List ClusterSummary → Values
unfolding encode_cluster
encode_list [] = nil
encode_list (s ∷ rest) = cons (encode_cluster s) (encode_list rest)

abbrev with_list : String → List ClusterSummary → Fields → Fields
with_list key [] rest = rest
with_list key (s ∷ l) rest = field key (arr (encode_list (s ∷ l))) rest

-- policyComplianceSummaryMap
unfoldable pub encode : ComplianceSummary → Value
unfolding encode_list
encode s = obj (
    with_uint "compliant" s.compliant
      (with_uint "noncompliant" s.noncompliant (with_list "summaries" s.summaries end)))

abbrev mismatch {ℓ} : {A : Type ℓ} → Outcome A
mismatch = fail (conversion "complianceSummary")

-- Decoding into a Go value: null and a missing key leave it at zero, another type is an error.
abbrev decode_uint : Value → Outcome ℕ
decode_uint null = ok 0
decode_uint (uint n) = if ltb n u32_mod then ok n else mismatch
decode_uint _ = mismatch

abbrev decode_text : Value → Outcome String
decode_text null = ok ""
decode_text (str s) = ok s
decode_text _ = mismatch

unfoldable pub decode_cluster : Value → Outcome ClusterSummary
decode_cluster null = ok (record { name = ""; compliant = 0; noncompliant = 0 })
decode_cluster (obj m) = do
  name ← decode_text (get "name" m)
  compliant ← decode_uint (get "compliant" m)
  noncompliant ← decode_uint (get "noncompliant" m)
  ok (record { name = name; compliant = compliant; noncompliant = noncompliant })
decode_cluster _ = mismatch

unfoldable pub decode_each : Values → Outcome (List ClusterSummary)
unfolding decode_cluster
decode_each nil = ok []
decode_each (cons v rest) = do s ← decode_cluster v; later ← decode_each rest; ok (s ∷ later)

abbrev decode_list : Value → Outcome (List ClusterSummary)
decode_list null = ok []
decode_list (arr vs) = decode_each vs
decode_list _ = mismatch

unfoldable pub decode : Value → Outcome ComplianceSummary
unfolding decode_each
decode null = ok (record { compliant = 0; noncompliant = 0; summaries = [] })
decode (obj m) = do
  compliant ← decode_uint (get "compliant" m)
  noncompliant ← decode_uint (get "noncompliant" m)
  summaries ← decode_list (get "summaries" m)
  ok (record { compliant = compliant; noncompliant = noncompliant; summaries = summaries })
decode _ = mismatch
