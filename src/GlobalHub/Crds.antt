-- ===== src/GlobalHub/Crds.antt =====
-- install_crds.go: the CRDs of the embedded folder manifests are created in the order of the walk, and
-- the first error ends it.
pub mod Laws
use hohapiserver.Base.{String, List, [], ◌∷◌}
use hohapiserver.Kube.{
  Gvr, Unstructured, create_object, Outcome, M, pure, lift, Server, send, ◌>>=◌,
}

abbrev pub crd_gvr : Gvr
crd_gvr = record {
  group = "apiextensions.k8s.io";
  version = "v1";
  resource = "customresourcedefinitions";
}

-- An entry of the walk: a directory, or a file with what reading and decoding it gives.
pub data Entry : Type 0 where
  directory : Entry
  file : Outcome Unstructured → Entry

module _ {S : Type 0} (serve : Server S) where
  unfoldable pub install_entry : Entry → M S String (Unit {0})
  install_entry directory = pure tt
  install_entry (file content) = do
    u ← lift content
    _ ← send serve (create_object crd_gvr "" u)
    pure tt

  unfoldable pub install_global_hub_crds : List Entry → M S String (Unit {0})
  install_global_hub_crds [] = pure tt
  install_global_hub_crds (e ∷ rest) = do _ ← install_entry e; install_global_hub_crds rest
