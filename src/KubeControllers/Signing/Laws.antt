-- ===== src/KubeControllers/Signing/Laws.antt =====
-- options/csrsigningcontroller.go and certificates.go: which options are valid, and which signers the
-- valid ones start.
use hohapiserver.Base.{
  ℕ, String, ◌==◌, eq_iff, arith, ◌≡◌, refl, ◌≢◌, ◌⊎◌, ◌↔◌, inl, inr, true, false, ◌&&◌, ◌||◌,
  Option, none, some, List, [], ◌∷◌, ◌++◌, if◌then◌else◌, Bool-cases,
}
use hohapiserver.KubeControllers.Signing.{
  SigningFiles, SigningConfig, csr_signing_files_valid, given, any_given, reported_as,
  single_signing_file, any_of_four_set, FilesError, OptionsError, default_and_specific,
  cluster_files, validate, any_specific_files_set, kube_apiserver_client_signer_files,
  legacy_unknown_signer_files, Signer, kube_apiserver_client_signer, legacy_unknown_signer, skipped,
  running, Start, NewSigner, start_csr_signing_controller,
}

-- Both files are given, or none.
abbrev pub Paired : SigningFiles → Type 0
Paired f = ((f.cert_file ≡ "") × (f.key_file ≡ "")) ⊎ ((f.cert_file ≢ "") × (f.key_file ≢ ""))

abbrev pub Absent : SigningFiles → Type 0
Absent f = (f.cert_file ≡ "") × (f.key_file ≡ "")

files_cases :
    (f : SigningFiles)
    → (Paired f × (csr_signing_files_valid f ≡ none) × (given f.cert_file ≡ given f.key_file))
      ⊎ ((¬ Paired f) × (csr_signing_files_valid f ≢ none))
unfolding csr_signing_files_valid
files_cases f = elim (Bool-cases (f.cert_file == "")) [
  | inl c ↦ elim (Bool-cases (f.key_file == "")) [
    | inl k ↦ inl (inl ((eq_iff _ _).0 c, (eq_iff _ _).0 k), rw (c, k), rw (c, k))
    | inr k ↦
        inr (ground (arith, eq_iff f.cert_file "", eq_iff f.key_file ""), rw (c, k) (ground arith))
  ]
  | inr c ↦ elim (Bool-cases (f.key_file == "")) [
    | inl k ↦
        inr (ground (arith, eq_iff f.cert_file "", eq_iff f.key_file ""), rw (c, k) (ground arith))
    | inr k ↦ inl (
      inr (ground (arith, eq_iff f.cert_file ""), ground (arith, eq_iff f.key_file "")),
      rw (c, k),
      rw (c, k),
    )
  ]
]

Absent-cases :
    (f : SigningFiles) → (Absent f × (any_given f ≡ false)) ⊎ ((¬ Absent f) × (any_given f ≡ true))
Absent-cases f = ground (arith, eq_iff f.cert_file "", eq_iff f.key_file "")

reported_iff :
    (flag : String) (e : Option FilesError) (rest : List OptionsError)
    → (reported_as flag e ++ rest ≡ []) ↔ ((e ≡ none) × (rest ≡ []))
reported_iff flag none rest = (λ h. (refl, h), λ (e, h). h)
reported_iff flag (some x) rest = (λ h. cc, λ (e, h). cc)

-- The last part of the validation.
clash_iff :
    (o : SigningConfig)
    → ((if single_signing_file o && any_of_four_set o then default_and_specific ∷ [] else []) ≡ [])
      ↔ (((o.cluster_signing_cert_file ≡ "") × (o.cluster_signing_key_file ≡ ""))
          ⊎ (Absent o.kubelet_serving
              × Absent o.kubelet_client
              × Absent o.kube_apiserver_client
              × Absent o.legacy_unknown))
unfolding single_signing_file any_of_four_set
clash_iff o = (
  λ h. ground (
    arith,
    Absent-cases o.kubelet_serving,
    Absent-cases o.kubelet_client,
    Absent-cases o.kube_apiserver_client,
    Absent-cases o.legacy_unknown,
    eq_iff o.cluster_signing_cert_file "",
    eq_iff o.cluster_signing_key_file "",
  ),
  λ h. ground (
    arith,
    Absent-cases o.kubelet_serving,
    Absent-cases o.kubelet_client,
    Absent-cases o.kube_apiserver_client,
    Absent-cases o.legacy_unknown,
    eq_iff o.cluster_signing_cert_file "",
    eq_iff o.cluster_signing_key_file "",
  ),
)

valid_of_Paired : (f : SigningFiles) → Paired f → csr_signing_files_valid f ≡ none
valid_of_Paired f h = elim (files_cases f) [ inl (p, v, g) ↦ v | inr (n, v) ↦ absurd (n h) ]

Paired-of_valid : (f : SigningFiles) → csr_signing_files_valid f ≡ none → Paired f
Paired-of_valid f h = elim (files_cases f) [ inl (p, v, g) ↦ p | inr (n, v) ↦ absurd (v h) ]

-- The validation reports nothing exactly when each of the four specific pairs of files is given as a
-- pair or not at all, and no cluster-wide file is given beside a specific one.
pub validate_iff :
    (o : SigningConfig)
    → (validate (some o) ≡ []) ↔ (
        Paired o.kubelet_serving
        × Paired o.kubelet_client
        × Paired o.kube_apiserver_client
        × Paired o.legacy_unknown
        × (((o.cluster_signing_cert_file ≡ "") × (o.cluster_signing_key_file ≡ ""))
            ⊎ (Absent o.kubelet_serving
                × Absent o.kubelet_client
                × Absent o.kube_apiserver_client
                × Absent o.legacy_unknown)))
unfolding validate
validate_iff o = (
  λ h.
      let (a, h1) = (reported_iff _ (csr_signing_files_valid o.kubelet_serving) _).0 h in
      let (b, h2) = (reported_iff _ (csr_signing_files_valid o.kubelet_client) _).0 h1 in
      let (c, h3) = (reported_iff _ (csr_signing_files_valid o.kube_apiserver_client) _).0 h2 in
      let (d, h4) = (reported_iff _ (csr_signing_files_valid o.legacy_unknown) _).0 h3 in
      (
        Paired-of_valid o.kubelet_serving a,
        Paired-of_valid o.kubelet_client b,
        Paired-of_valid o.kube_apiserver_client c,
        Paired-of_valid o.legacy_unknown d,
        (clash_iff o).0 h4,
      ),
  λ (a, b, c, d, h). (reported_iff _ (csr_signing_files_valid o.kubelet_serving) _).1 (
    valid_of_Paired o.kubelet_serving a,
    (reported_iff _ (csr_signing_files_valid o.kubelet_client) _).1 (
      valid_of_Paired o.kubelet_client b,
      (reported_iff _ (csr_signing_files_valid o.kube_apiserver_client) _).1 (
        valid_of_Paired o.kube_apiserver_client c,
        (reported_iff _ (csr_signing_files_valid o.legacy_unknown) _).1
            (valid_of_Paired o.legacy_unknown d, (clash_iff o).1 h),
      ),
    ),
  ),
)

-- The signers that have files of their own.
abbrev pub with_own_files : SigningConfig → List (Signer × SigningFiles)
with_own_files c =
    (if given c.kube_apiserver_client.cert_file
      then (kube_apiserver_client_signer, c.kube_apiserver_client) ∷ []
      else [])
    ++ (if given c.legacy_unknown.cert_file
        then (legacy_unknown_signer, c.legacy_unknown) ∷ []
        else [])

-- What valid options start: the signers with files of their own; if there is none, both signers with the
-- files of the cluster, or nothing where these are not both given.
abbrev pub expected_start : SigningConfig → Start
expected_start c =
    if given c.kube_apiserver_client.cert_file || given c.legacy_unknown.cert_file
    then record { result = running; signers = with_own_files c }
    else if given c.cluster_signing_cert_file && given c.cluster_signing_key_file
    then record {
      result = running;
      signers =
          (kube_apiserver_client_signer, cluster_files c)
          ∷ (legacy_unknown_signer, cluster_files c)
          ∷ [];
    }
    else record { result = skipped; signers = [] }

-- Options that pass the validation never make the start fail, where a signer can be made of any two
-- given files: it starts the signers with files of their own, or else both with the cluster's files,
-- or is skipped.
pub start_of_valid :
    (new_signer : NewSigner) (c : SigningConfig)
    → validate (some c) ≡ []
    → ((s : Signer) (f : SigningFiles) (ttl : ℕ)
        → f.cert_file ≢ ""
        → f.key_file ≢ ""
        → new_signer s f ttl ≡ none)
    → start_csr_signing_controller new_signer c ≡ expected_start c
unfolding start_csr_signing_controller any_specific_files_set kube_apiserver_client_signer_files
    legacy_unknown_signer_files
start_of_valid new_signer c valid makes =
    let (a, b, p, q, clash) = (validate_iff c).0 valid in
    let ttl = c.cluster_signing_duration in
    ground (
      arith,
      eq_iff c.cluster_signing_cert_file "",
      eq_iff c.cluster_signing_key_file "",
      eq_iff c.kube_apiserver_client.cert_file "",
      eq_iff c.kube_apiserver_client.key_file "",
      eq_iff c.legacy_unknown.cert_file "",
      eq_iff c.legacy_unknown.key_file "",
      makes kube_apiserver_client_signer c.kube_apiserver_client ttl,
      makes legacy_unknown_signer c.legacy_unknown ttl,
      makes kube_apiserver_client_signer (cluster_files c) ttl,
      makes legacy_unknown_signer (cluster_files c) ttl,
    )
