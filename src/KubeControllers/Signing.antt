-- ===== src/KubeControllers/Signing.antt =====
-- options/csrsigningcontroller.go: the options of the certificate signers and their validation.
-- certificates.go: startCSRSigningController and its helpers.
pub mod Laws
use hohapiserver.Base.{
  ℕ, String, ◌==◌, if◌then◌else◌, Bool, true, false, not, ◌&&◌, ◌||◌, Option, none, some, List, [],
  ◌∷◌, ◌++◌,
}

-- CSRSigningConfiguration
pub record SigningFiles : Type 0 where
  pub cert_file : String
  pub key_file : String

-- CSRSigningControllerConfiguration; the duration in nanoseconds.
pub record SigningConfig : Type 0 where
  pub cluster_signing_cert_file : String
  pub cluster_signing_key_file : String
  pub kubelet_serving : SigningFiles
  pub kubelet_client : SigningFiles
  pub kube_apiserver_client : SigningFiles
  pub legacy_unknown : SigningFiles
  pub cluster_signing_duration : ℕ

pub data FilesError : Type 0 where
  key_without_cert cert_without_key math_broke : FilesError

pub data OptionsError : Type 0 where
  invalid_files : String → FilesError → OptionsError
  default_and_specific : OptionsError

-- len(s) > 0
abbrev pub given : String → Bool
given s = not (s == "")

-- csrSigningFilesValid, nil as `none`.
unfoldable pub csr_signing_files_valid : SigningFiles → Option FilesError
csr_signing_files_valid f =
    if not (given f.cert_file) && not (given f.key_file)
    then none
    else if given f.cert_file && given f.key_file
    then none
    else if not (given f.cert_file) && given f.key_file
    then some key_without_cert
    else if given f.cert_file && not (given f.key_file)
    then some cert_without_key
    else some math_broke

-- `if err != nil { errs = append(errs, …) }`
abbrev pub reported_as : String → Option FilesError → List OptionsError
reported_as flag none = []
reported_as flag (some e) = invalid_files flag e ∷ []

-- A pair of files of which one is given.
abbrev pub any_given : SigningFiles → Bool
any_given f = given f.cert_file || given f.key_file

-- singleSigningFile and anySpecificFilesSet of Validate.
unfoldable pub single_signing_file : SigningConfig → Bool
single_signing_file o = given o.cluster_signing_cert_file || given o.cluster_signing_key_file

unfoldable pub any_of_four_set : SigningConfig → Bool
any_of_four_set o =
    any_given o.kubelet_serving
    || any_given o.kubelet_client
    || any_given o.kube_apiserver_client
    || any_given o.legacy_unknown

-- Validate, with the receiver nil as `none`.
unfoldable pub validate : Option SigningConfig → List OptionsError
validate none = []
validate (some o) =
    reported_as "cluster-signing-kubelet-serving" (csr_signing_files_valid o.kubelet_serving)
    ++ (reported_as "cluster-signing-kube-apiserver-client"
          (csr_signing_files_valid o.kubelet_client)
        ++ (reported_as "cluster-signing-kube-apiserver"
              (csr_signing_files_valid o.kube_apiserver_client)
            ++ (reported_as "cluster-signing-legacy-unknown"
                  (csr_signing_files_valid o.legacy_unknown)
                ++ (if single_signing_file o && any_of_four_set o
                    then default_and_specific ∷ []
                    else []))))

-- ApplyTo
unfoldable pub apply_to : Option SigningConfig → SigningConfig → SigningConfig
apply_to none cfg = cfg
apply_to (some o) cfg = record cfg {
  cluster_signing_cert_file = o.cluster_signing_cert_file;
  cluster_signing_key_file = o.cluster_signing_key_file;
  kubelet_serving = o.kubelet_serving;
  kubelet_client = o.kubelet_client;
  kube_apiserver_client = o.kube_apiserver_client;
  legacy_unknown = o.legacy_unknown;
  cluster_signing_duration = o.cluster_signing_duration;
}

unfoldable pub any_specific_files_set : SigningConfig → Bool
any_specific_files_set c = any_given c.kube_apiserver_client || any_given c.legacy_unknown

abbrev pub cluster_files : SigningConfig → SigningFiles
cluster_files c = record {
  cert_file = c.cluster_signing_cert_file;
  key_file = c.cluster_signing_key_file;
}

-- getKubeAPIServerClientSignerFiles
unfoldable pub kube_apiserver_client_signer_files : SigningConfig → SigningFiles
kube_apiserver_client_signer_files c =
    if any_specific_files_set c then c.kube_apiserver_client else cluster_files c

-- getLegacyUnknownSignerFiles
unfoldable pub legacy_unknown_signer_files : SigningConfig → SigningFiles
legacy_unknown_signer_files c =
    if any_specific_files_set c then c.legacy_unknown else cluster_files c

pub data Signer : Type 0 where
  kube_apiserver_client_signer legacy_unknown_signer : Signer

pub data StartError : Type 0 where
  default_and_per_controller : StartError
  not_started : Signer → String → StartError

-- The results (nil, false, nil), (nil, true, nil) and an error.
pub data Started : Type 0 where
  skipped running : Started
  start_error : StartError → Started

-- What startCSRSigningController returns, and the signers whose goroutines it started.
pub record Start : Type 0 where
  pub result : Started
  pub signers : List (Signer × SigningFiles)

-- The constructors of the signers: an error or nil.
abbrev pub NewSigner : Type 0
NewSigner = Signer → SigningFiles → ℕ → Option String

module _ (new_signer : NewSigner) where
  -- The block of one signer, and what follows it.
  start_signer :
      Signer
      → SigningFiles
      → ℕ
      → List (Signer × SigningFiles)
      → (List (Signer × SigningFiles) → Start)
      → Start
  start_signer s files ttl before next =
      if any_given files
      then elim (new_signer s files ttl) [
        | some e ↦ record { result = start_error (not_started s e); signers = before }
        | none ↦ next (before ++ (s, files) ∷ [])
      ]
      else next before

  unfoldable pub start_csr_signing_controller : SigningConfig → Start
  unfolding start_signer
  start_csr_signing_controller c =
      if missing && not (any_specific_files_set c)
      then record { result = skipped; signers = [] }
      else if not missing && any_specific_files_set c
      then record { result = start_error default_and_per_controller; signers = [] }
      else start_signer kube_apiserver_client_signer (kube_apiserver_client_signer_files c)
          c.cluster_signing_duration []
          (λ before.
            start_signer legacy_unknown_signer (legacy_unknown_signer_files c)
              c.cluster_signing_duration before (λ all. record { result = running; signers = all }))
    where
      missing : Bool
      missing = not (given c.cluster_signing_cert_file) || not (given c.cluster_signing_key_file)
