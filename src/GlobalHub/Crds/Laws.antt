-- ===== src/GlobalHub/Crds/Laws.antt =====
-- install_crds.go: which CRDs reach the server.
use hohapiserver.Base.{arith, ◌≡◌, refl, List, [], ◌∷◌, ◌++◌}
use hohapiserver.Kube.{
  Unstructured, create_object, found, refused, ApiError, api, ok, fail, panic, World, sent, Server,
  Call,
}
use hohapiserver.Base.{String}
use hohapiserver.GlobalHub.Crds.{
  crd_gvr, Entry, directory, file, install_entry, install_global_hub_crds,
}

-- Entries of a walk of which each is a directory or a file that is read and decoded.
abbrev pub AllRead : List Entry → Type 0
AllRead [] = Unit
AllRead (directory ∷ rest) = AllRead rest
AllRead (file (ok u) ∷ rest) = AllRead rest
AllRead (file _ ∷ rest) = ⊥

-- What is in the files.
abbrev pub contents : List Entry → List Unstructured
contents [] = []
contents (directory ∷ rest) = contents rest
contents (file (ok u) ∷ rest) = u ∷ contents rest
contents (file _ ∷ rest) = contents rest

-- The requests for them, the latest first, in front of a log.
abbrev pub creations : List Unstructured → List (Call String) → List (Call String)
creations [] log = log
creations (u ∷ us) log = creations us (sent (create_object crd_gvr "" u) ∷ log)

module _ {S : Type 0} (serve : Server S) where
  abbrev pub created : Unstructured → World S String → World S String
  created u w = record {
    server = (serve (create_object crd_gvr "" u) w.server).1;
    log = sent (create_object crd_gvr "" u) ∷ w.log;
  }

  abbrev pub all_created : List Unstructured → World S String → World S String
  all_created [] w = w
  all_created (u ∷ us) w = all_created us (created u w)

  -- Each of the CRDs is accepted when its turn comes.
  abbrev pub Accepted : List Unstructured → World S String → Type 0
  Accepted [] w = Unit
  Accepted (u ∷ us) w =
      ((made : Unstructured) × ((serve (create_object crd_gvr "" u) w.server).0 ≡ found made))
      × Accepted us (created u w)

  all_created-log :
      (us : List Unstructured) (w : World S String) → (all_created us w).log ≡ creations us w.log
  all_created-log [] w = refl
  all_created-log (u ∷ us) w = all_created-log us (created u w)

  -- A walk over directories and files, the root directory first, in which the files up to the first refusal are
  -- read and decoded: the CRDs in front of that refusal are created, in order; the refusal is the result, and nothing behind it is sent. So one CRD that exists
  -- already keeps all later ones from the server.
  pub install_global_hub_crds-stops :
      (before : List Entry) (u : Unstructured) (rest : List Entry) (e : ApiError)
      (w : World S String)
      → AllRead before
      → Accepted (contents before) w
      → (serve (create_object crd_gvr "" u) (all_created (contents before) w).server).0 ≡ refused e
      → let t = install_global_hub_crds serve (directory ∷ before ++ file (ok u) ∷ rest) w in
        (t.0 ≡ fail (api e))
        × (t.1.log ≡ sent (create_object crd_gvr "" u) ∷ creations (contents before) w.log)
  unfolding install_global_hub_crds install_entry
  install_global_hub_crds-stops [] u rest e w read a h = (ground arith, ground arith)
  install_global_hub_crds-stops (directory ∷ before) u rest e w read a h =
      install_global_hub_crds-stops before u rest e w read a h
  install_global_hub_crds-stops (file (ok v) ∷ before) u rest e w read ((made, m), a) h =
      ground (arith, install_global_hub_crds-stops before u rest e (created v w) read a h)
  install_global_hub_crds-stops (file (fail x) ∷ before) u rest e w read a h = absurd read
  install_global_hub_crds-stops (file panic ∷ before) u rest e w read a h = absurd read

  -- If the server accepts every CRD, all are created, in order.
  pub install_global_hub_crds-all :
      (entries : List Entry) (w : World S String)
      → AllRead entries
      → Accepted (contents entries) w
      → install_global_hub_crds serve entries w ≡ (ok tt, all_created (contents entries) w)
  unfolding install_global_hub_crds install_entry
  install_global_hub_crds-all [] w read a = refl
  install_global_hub_crds-all (directory ∷ rest) w read a =
      install_global_hub_crds-all rest w read a
  install_global_hub_crds-all (file (ok v) ∷ rest) w read ((made, m), a) =
      ground (arith, install_global_hub_crds-all rest (created v w) read a)
  install_global_hub_crds-all (file (fail x) ∷ rest) w read a = absurd read
  install_global_hub_crds-all (file panic ∷ rest) w read a = absurd read
