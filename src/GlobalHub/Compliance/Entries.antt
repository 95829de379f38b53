-- ===== src/GlobalHub/Compliance/Entries.antt =====
-- policy_controller.go: after a merge a hub's entry is the new count, the entries of the other hubs are
-- as before, and to merge the same count again changes nothing.
use hohapiserver.Base.{
  ℕ, ◌<◌, is_some, String, ◌==◌, eq_iff, arith, ◌≡◌, refl, ◌≢◌, sym, ◌∙◌, Bool, true, false, ◌||◌,
  List, [], ◌∷◌, ◌++◌, Option, none, some, if◌then◌else◌, Bool-cases, inl, inr, ◌⊎◌,
}
use hohapiserver.GlobalHub.Compliance.{
  u32_mod, add32, sub32, ClusterSummary, ComplianceSummary, merge_loop, merge,
}
use hohapiserver.GlobalHub.Compliance.Totals.{InRange, IsConsistent, merge-IsConsistent, mod-lt_of}

-- The first entry of a name.
unfoldable pub entry : String → List ClusterSummary → Option ClusterSummary
entry name [] = none
entry name (s ∷ rest) = if s.name == name then some s else entry name rest

merge_loop-entry :
    (new : ClusterSummary) (c n : ℕ) (l : List ClusterSummary) (name : String)
    → let m = merge_loop new c n l in
      entry name m.list
      ≡ (if new.name == name then (if m.exist then some new else none) else entry name l)
unfolding merge_loop entry
merge_loop-entry new c n [] name = ground arith
merge_loop-entry new c n (s ∷ rest) name = elim (Bool-cases (new.name == s.name)) [
  | inl same ↦ rw same (
      ground (
        arith,
        eq_iff new.name s.name,
        eq_iff s.name name,
        eq_iff new.name name,
        merge_loop-entry new (add32 c (sub32 new.compliant s.compliant))
            (add32 n (sub32 new.noncompliant s.noncompliant)) rest name,
      ))
  | inr differs ↦ rw differs (
      ground (
        arith,
        eq_iff new.name s.name,
        eq_iff s.name name,
        eq_iff new.name name,
        merge_loop-entry new c n rest name,
      ))
]

entry-append :
    (name : String) (l : List ClusterSummary) (s : ClusterSummary)
    → entry name (l ++ s ∷ [])
      ≡ (if is_some (entry name l) then entry name l else if s.name == name then some s else none)
unfolding entry
entry-append name [] s = refl
entry-append name (x ∷ l) s = ground (arith, entry-append name l s)

-- After a merge the entry of the hub is exactly the new count, and the entry of any other name is what
-- it was.
pub merge-entry :
    (new : ClusterSummary) (s : ComplianceSummary) (name : String)
    → entry name (merge new s).summaries
      ≡ (if new.name == name then some new else entry name s.summaries)
unfolding merge
merge-entry new s name =
    let m = merge_loop new s.compliant s.noncompliant s.summaries in
    ground (
      arith,
      merge_loop-entry new s.compliant s.noncompliant s.summaries name,
      entry-append name m.list new,
    )

-- Every entry of a name is the given one.
abbrev Fixed : ClusterSummary → List ClusterSummary → Type 0
Fixed new [] = Unit
Fixed new (s ∷ rest) = ((new.name ≢ s.name) ⊎ (s ≡ new)) × Fixed new rest

merge_loop-Fixed :
    (new : ClusterSummary) (c n : ℕ) (l : List ClusterSummary)
    → Fixed new (merge_loop new c n l).list
unfolding merge_loop
merge_loop-Fixed new c n [] = tt
merge_loop-Fixed new c n (s ∷ rest) = elim (Bool-cases (new.name == s.name)) [
  | inl same ↦ rw same (
    inr (ground (arith, eq_iff new.name s.name)),
    merge_loop-Fixed new (add32 c (sub32 new.compliant s.compliant))
        (add32 n (sub32 new.noncompliant s.noncompliant)) rest,
  )
  | inr differs ↦
      rw differs (inl (ground (arith, eq_iff new.name s.name)), merge_loop-Fixed new c n rest)
]

Fixed-append :
    (new : ClusterSummary) (l : List ClusterSummary) → Fixed new l → Fixed new (l ++ new ∷ [])
Fixed-append new [] h = (inr refl, tt)
Fixed-append new (s ∷ l) (k, h) = (k, Fixed-append new l h)

add32-sub32_self : (a c : ℕ) → a < u32_mod → c < u32_mod → add32 c (sub32 a a) ≡ c
unfolding add32 sub32
add32-sub32_self a c h k = omega arith

merge_loop_of_Fixed :
    (new : ClusterSummary) (c n : ℕ) (l : List ClusterSummary)
    → InRange new
    → c < u32_mod
    → n < u32_mod
    → Fixed new l
    → let m = merge_loop new c n l in
      (m.total_compliant ≡ c) × (m.total_noncompliant ≡ n) × (m.list ≡ l)
unfolding merge_loop
merge_loop_of_Fixed new c n [] fits hc hn h = (refl, refl, refl)
merge_loop_of_Fixed new c n (s ∷ rest) fits hc hn (inl ne, h) =
    ground (arith, eq_iff new.name s.name, merge_loop_of_Fixed new c n rest fits hc hn h)
merge_loop_of_Fixed new c n (s ∷ rest) fits hc hn (inr e, h) = ground (
  arith,
  eq_iff new.name s.name,
  add32-sub32_self new.compliant c fits.0 hc,
  add32-sub32_self new.noncompliant n fits.1 hn,
  merge_loop_of_Fixed new c n rest fits hc hn h,
)

-- Whether some entry has the name.
unfoldable has : String → List ClusterSummary → Bool
has name [] = false
has name (s ∷ rest) = name == s.name || has name rest

merge_loop-has :
    (new : ClusterSummary) (c n : ℕ) (l : List ClusterSummary)
    → let m = merge_loop new c n l in
      (m.exist ≡ has new.name l) × (has new.name m.list ≡ has new.name l)
unfolding merge_loop has
merge_loop-has new c n [] = (refl, refl)
merge_loop-has new c n (s ∷ rest) = elim (Bool-cases (new.name == s.name)) [
  | inl same ↦ ground arith
  | inr differs ↦ ground (arith, merge_loop-has new c n rest)
]

has-append :
    (name : String) (l : List ClusterSummary) (s : ClusterSummary)
    → name ≡ s.name
    → has name (l ++ s ∷ []) ≡ true
unfolding has
has-append name [] s e = ground (arith, eq_iff name s.name)
has-append name (x ∷ l) s e = ground (arith, has-append name l s e)

merge-Fixed :
    (new : ClusterSummary) (s : ComplianceSummary)
    → Fixed new (merge new s).summaries × (has new.name (merge new s).summaries ≡ true)
unfolding merge
merge-Fixed new s =
    let l = s.summaries in
    let m = merge_loop new s.compliant s.noncompliant l in
    let fixed = merge_loop-Fixed new s.compliant s.noncompliant l in
    let (e, k) = merge_loop-has new s.compliant s.noncompliant l in
    elim (Bool-cases m.exist) [
      | inl old ↦ rw old (fixed, k ∙ sym e ∙ old)
      | inr fresh ↦ rw fresh (Fixed-append new m.list fixed, has-append new.name m.list new refl)
    ]

merge_of_Fixed :
    (new : ClusterSummary) (t : ComplianceSummary)
    → InRange new
    → t.compliant < u32_mod
    → t.noncompliant < u32_mod
    → Fixed new t.summaries
    → has new.name t.summaries ≡ true
    → merge new t ≡ t
unfolding merge
merge_of_Fixed new t fits hc hn h k = ground (
  arith,
  merge_loop-has new t.compliant t.noncompliant t.summaries,
  merge_loop_of_Fixed new t.compliant t.noncompliant t.summaries fits hc hn h,
)

-- To merge the same count once more changes nothing: a hub's report is counted once, however often
-- its policy is reconciled.
pub merge_idem :
    (new : ClusterSummary) (s : ComplianceSummary)
    → InRange new
    → IsConsistent s
    → merge new (merge new s) ≡ merge new s
merge_idem new s fits k =
    let t = merge-IsConsistent new s fits k in
    let (fixed, there) = merge-Fixed new s in
    merge_of_Fixed new (merge new s) fits (mod-lt_of _ _ t.compliant_sum)
      (mod-lt_of _ _ t.noncompliant_sum) fixed there
