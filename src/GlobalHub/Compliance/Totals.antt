-- ===== src/GlobalHub/Compliance/Totals.antt =====
-- policy_controller.go: the totals of a summary are the sums over its entries, modulo 2^32, and a hub's
-- entry is the count of its clusters.
use hohapiserver.Base.{
  ℕ, suc, ◌+◌, ◌%◌, ◌<◌, String, ◌==◌, arith, ◌≡◌, refl, List, [], ◌∷◌, ◌++◌, All, Bool-cases, inl,
  inr,
}
use hohapiserver.GlobalHub.Compliance.{
  u32_mod, add32, sub32, ClusterSummary, ComplianceSummary, ComplianceState, compliant_state,
  noncompliant_state, other_state, count_states, new_cluster_summary, merge_loop, merge,
}

-- Both counters are values of the type uint32.
abbrev pub InRange : ClusterSummary → Type 0
InRange s = (s.compliant < u32_mod) × (s.noncompliant < u32_mod)

unfoldable pub sum_compliant : List ClusterSummary → ℕ
sum_compliant [] = 0
sum_compliant (s ∷ rest) = s.compliant + sum_compliant rest

unfoldable pub sum_noncompliant : List ClusterSummary → ℕ
sum_noncompliant [] = 0
sum_noncompliant (s ∷ rest) = s.noncompliant + sum_noncompliant rest

-- The totals are the sums over the entries, in uint32 arithmetic.
pub record IsConsistent (s : ComplianceSummary) : Type 0 where
  pub in_range : All InRange s.summaries
  pub compliant_sum : s.compliant ≡ sum_compliant s.summaries % u32_mod
  pub noncompliant_sum : s.noncompliant ≡ sum_noncompliant s.summaries % u32_mod

add32-lt : (a b : ℕ) → add32 a b < u32_mod
unfolding add32
add32-lt a b = omega arith

-- Replacing an entry b by a moves the total as much as the sum.
replaced_total :
    (a b c t u v : ℕ)
    → b < u32_mod
    → (u + t) % u32_mod ≡ (add32 c (sub32 a b) + v) % u32_mod
    → (u + (b + t)) % u32_mod ≡ (c + (a + v)) % u32_mod
unfolding add32 sub32
replaced_total a b c t u v h e = omega arith

kept_total :
    (b c t u v : ℕ)
    → (u + t) % u32_mod ≡ (c + v) % u32_mod
    → (u + (b + t)) % u32_mod ≡ (c + (b + v)) % u32_mod
kept_total b c t u v e = omega arith

module _ (new : ClusterSummary) where
  merge_loop-compliant :
      (c n : ℕ) (l : List ClusterSummary)
      → All InRange l
      → let m = merge_loop new c n l in
        (m.total_compliant + sum_compliant l) % u32_mod ≡ (c + sum_compliant m.list) % u32_mod
  unfolding merge_loop sum_compliant
  merge_loop-compliant c n [] h = refl
  merge_loop-compliant c n (s ∷ rest) (k, h) = elim (Bool-cases (new.name == s.name)) [
    | inl same ↦ rw same (
        replaced_total _ _ c _ _ _ k.0 (
          merge_loop-compliant (add32 c (sub32 new.compliant s.compliant))
            (add32 n (sub32 new.noncompliant s.noncompliant)) rest h))
    | inr differs ↦ rw differs (kept_total _ c _ _ _ (merge_loop-compliant c n rest h))
  ]

  merge_loop-noncompliant :
      (c n : ℕ) (l : List ClusterSummary)
      → All InRange l
      → let m = merge_loop new c n l in
        (m.total_noncompliant + sum_noncompliant l) % u32_mod
        ≡ (n + sum_noncompliant m.list) % u32_mod
  unfolding merge_loop sum_noncompliant
  merge_loop-noncompliant c n [] h = refl
  merge_loop-noncompliant c n (s ∷ rest) (k, h) = elim (Bool-cases (new.name == s.name)) [
    | inl same ↦ rw same (
        replaced_total _ _ n _ _ _ k.1 (
          merge_loop-noncompliant (add32 c (sub32 new.compliant s.compliant))
            (add32 n (sub32 new.noncompliant s.noncompliant)) rest h))
    | inr differs ↦ rw differs (kept_total _ n _ _ _ (merge_loop-noncompliant c n rest h))
  ]

  -- The totals stay values of the type uint32, and so do the entries.
  pub merge_loop_range :
      (c n : ℕ) (l : List ClusterSummary)
      → InRange new
      → c < u32_mod
      → n < u32_mod
      → All InRange l
      → let m = merge_loop new c n l in
        (m.total_compliant < u32_mod) × (m.total_noncompliant < u32_mod) × All InRange m.list
  unfolding merge_loop
  merge_loop_range c n [] fits hc hn h = (hc, hn, tt)
  merge_loop_range c n (s ∷ rest) fits hc hn (k, h) = elim (Bool-cases (new.name == s.name)) [
    | inl same ↦
        let (a, b, d) =
          merge_loop_range (add32 c (sub32 new.compliant s.compliant))
            (add32 n (sub32 new.noncompliant s.noncompliant)) rest fits (add32-lt _ _)
            (add32-lt _ _) h in
        rw same (a, b, (fits, d))
    | inr differs ↦
        let (a, b, d) = merge_loop_range c n rest fits hc hn h in rw differs (a, b, (k, d))
  ]

sum_compliant-append :
    (l : List ClusterSummary) (s : ClusterSummary)
    → sum_compliant (l ++ s ∷ []) ≡ sum_compliant l + s.compliant
unfolding sum_compliant
sum_compliant-append [] s = omega arith
sum_compliant-append (x ∷ l) s = omega (arith, sum_compliant-append l s)

sum_noncompliant-append :
    (l : List ClusterSummary) (s : ClusterSummary)
    → sum_noncompliant (l ++ s ∷ []) ≡ sum_noncompliant l + s.noncompliant
unfolding sum_noncompliant
sum_noncompliant-append [] s = omega arith
sum_noncompliant-append (x ∷ l) s = omega (arith, sum_noncompliant-append l s)

All-append :
    (l : List ClusterSummary) (s : ClusterSummary)
    → All InRange l
    → InRange s
    → All InRange (l ++ s ∷ [])
All-append [] s h k = (k, tt)
All-append (x ∷ l) s (a, h) k = (a, All-append l s h k)

pub mod-lt_of : (c u : ℕ) → c ≡ u % u32_mod → c < u32_mod
mod-lt_of c u h = omega arith

-- A total that moved as the sum did is the new sum.
total_of_sum :
    (t c u v : ℕ)
    → t < u32_mod
    → c ≡ u % u32_mod
    → (t + u) % u32_mod ≡ (c + v) % u32_mod
    → t ≡ v % u32_mod
total_of_sum t c u v h e f = omega arith

-- Merging the count of a hub keeps the totals equal, in uint32 arithmetic, to the sums over the entries,
-- though the code only adds and subtracts differences that may wrap around.
pub merge-IsConsistent :
    (new : ClusterSummary) (s : ComplianceSummary)
    → InRange new
    → IsConsistent s
    → IsConsistent (merge new s)
unfolding merge
merge-IsConsistent new s fits k =
    let l = s.summaries in
    let m = merge_loop new s.compliant s.noncompliant l in
    let (a, b, d) =
      merge_loop_range new s.compliant s.noncompliant l fits (mod-lt_of _ _ k.compliant_sum)
        (mod-lt_of _ _ k.noncompliant_sum) k.in_range in
    let p =
      total_of_sum m.total_compliant s.compliant (sum_compliant l) (sum_compliant m.list) a
        k.compliant_sum (merge_loop-compliant new s.compliant s.noncompliant l k.in_range) in
    let q =
      total_of_sum m.total_noncompliant s.noncompliant (sum_noncompliant l)
        (sum_noncompliant m.list) b k.noncompliant_sum
        (merge_loop-noncompliant new s.compliant s.noncompliant l k.in_range) in
    elim (Bool-cases m.exist) [
      | inl old ↦ rw old (record { in_range = d; compliant_sum = p; noncompliant_sum = q })
      | inr fresh ↦ rw fresh (record {
        in_range = All-append m.list new d fits;
        compliant_sum = omega (arith, sum_compliant-append m.list new);
        noncompliant_sum = omega (arith, sum_noncompliant-append m.list new);
      })
    ]

-- How many managed clusters are in the one state, and in the other.
unfoldable pub number_compliant : List ComplianceState → ℕ
number_compliant [] = 0
number_compliant (compliant_state ∷ rest) = suc (number_compliant rest)
number_compliant (_ ∷ rest) = number_compliant rest

unfoldable pub number_noncompliant : List ComplianceState → ℕ
number_noncompliant [] = 0
number_noncompliant (noncompliant_state ∷ rest) = suc (number_noncompliant rest)
number_noncompliant (compliant_state ∷ rest) = number_noncompliant rest
number_noncompliant (_ ∷ rest) = number_noncompliant rest

count_states_lem :
    (states : List ComplianceState) (s : ClusterSummary)
    → InRange s
    → count_states states s ≡ record {
      name = s.name;
      compliant = (s.compliant + number_compliant states) % u32_mod;
      noncompliant = (s.noncompliant + number_noncompliant states) % u32_mod;
    }
unfolding count_states number_compliant number_noncompliant add32
count_states_lem [] s h = ground arith
count_states_lem (compliant_state ∷ rest) s h =
    ground (arith, count_states_lem rest (record s { compliant = add32 s.compliant 1 }))
count_states_lem (noncompliant_state ∷ rest) s h =
    ground (arith, count_states_lem rest (record s { noncompliant = add32 s.noncompliant 1 }))
count_states_lem (other_state x ∷ rest) s h = count_states_lem rest s h

-- The entry that a hub reports under its name holds the numbers of its compliant and of its noncompliant
-- clusters modulo 2^32; a cluster in any other state counts for neither.
pub new_cluster_summary-counts :
    (name : String) (states : List ComplianceState)
    → new_cluster_summary name states ≡ record {
      name = name;
      compliant = number_compliant states % u32_mod;
      noncompliant = number_noncompliant states % u32_mod;
    }
unfolding new_cluster_summary
new_cluster_summary-counts name states =
    ground
      (arith, count_states_lem states (record { name = name; compliant = 0; noncompliant = 0 }))

pub new_cluster_summary-InRange :
    (name : String) (states : List ComplianceState) → InRange (new_cluster_summary name states)
new_cluster_summary-InRange name states = rw (new_cluster_summary-counts name states) (omega arith)
