-- ===== src/GlobalHub/Compliance/Codec.antt =====
-- policy_controller.go: the JSON form of a summary in the status of a policy.
use hohapiserver.Base.{◌<◌, eq_iff, arith, ◌≡◌, refl, List, [], ◌∷◌, All}
use hohapiserver.Kube.{get, ok}
use hohapiserver.GlobalHub.Compliance.{
  u32_mod, ClusterSummary, ComplianceSummary, encode_cluster, encode_list, encode, decode_cluster,
  decode_each, decode,
}
use hohapiserver.GlobalHub.Compliance.Totals.{InRange}

decode-encode_cluster : (s : ClusterSummary) → InRange s → decode_cluster (encode_cluster s) ≡ ok s
unfolding decode_cluster encode_cluster get
decode-encode_cluster s h = ground (arith, eq_iff s.name "")

decode-encode_list : (l : List ClusterSummary) → All InRange l → decode_each (encode_list l) ≡ ok l
unfolding decode_each encode_list
decode-encode_list [] h = refl
decode-encode_list (s ∷ l) (k, h) =
    ground (arith, decode-encode_cluster s k, decode-encode_list l h)

-- A summary with uint32 counters is read back from its JSON form as it was written.
pub decode-encode :
    (s : ComplianceSummary)
    → s.compliant < u32_mod
    → s.noncompliant < u32_mod
    → All InRange s.summaries
    → decode (encode s) ≡ ok s
unfolding decode encode get
decode-encode s hc hn h = go s.summaries refl
  where
    go : (l : List ClusterSummary) → s.summaries ≡ l → decode (encode s) ≡ ok s
    go [] e = ground arith
    go (x ∷ l) e = ground (arith, decode-encode_list s.summaries h)
