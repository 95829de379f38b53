-- ===== src/Etcd/Safe.antt =====
-- server/etcd/embedded.go: Run ends by a value or an error.
use hohapiserver.Base.{
  String, List, refl, ◌≢◌, arith, Program, Result, returned, failed, panicked, ◌>>=◌, ◌>>◌, Ends,
  at_value, at_error, at_panic, >>=-Ends,
}
use hohapiserver.Etcd.{Etcd, EtcdConfig, serve, touch, run, etcd_config}
use hohapiserver.Etcd.Certificates.{
  Template, Crypto, FileSystem, Disk, cert_to_file, ec_private_key_to_file, write_files,
  draw_material, write_material, generate_client_and_server_certs,
}

-- A program without a panic.
abbrev pub NeverPanics : {A S : Type 0} → Program S A → Type 0
NeverPanics {S} m = (s : S) → Ends ⊥ (λ a t. Unit {0}) (m s)

module _ {A S : Type 0} where
  by_result : (m : Program S A) → ((s : S) → (m s).0 ≢ panicked) → NeverPanics m
  by_result m h s = split (m s) (h s)
    where
      split : (r : Result A × S) → r.0 ≢ panicked → Ends ⊥ (λ a t. Unit {0}) r
      split (returned a, t) h = at_value tt
      split (failed e, t) h = at_error
      split (panicked, t) h = at_panic (h refl)

  then-NeverPanics :
      {B : Type 0} (m : Program S A) (f : A → Program S B)
      → NeverPanics m
      → ((a : A) → NeverPanics (f a))
      → NeverPanics (m >>= f)
  then-NeverPanics m f h k s = >>=-Ends m f s (h s) λ a t _. k a t

module _ {O Key Public : Type 0} (crypto : Crypto O Key Public) (fs : FileSystem O) where
  cert_to_file-NeverPanics :
      (t p : Template) (public : Public) (key : Key) (path : String)
      → NeverPanics (cert_to_file crypto fs t p public key path)
  unfolding cert_to_file
  cert_to_file-NeverPanics t p public key path = by_result _ λ s e. ground (arith, e)

  key_to_file-NeverPanics :
      (key : Key) (path : String) → NeverPanics (ec_private_key_to_file crypto fs key path)
  unfolding ec_private_key_to_file
  key_to_file-NeverPanics key path = by_result _ λ s e. ground (arith, e)

  draw_material-NeverPanics : NeverPanics (draw_material crypto fs)
  unfolding draw_material
  draw_material-NeverPanics = by_result _ λ s e. ground (arith, e)

  generate-NeverPanics :
      (hosts : List String) (dir : String)
      → NeverPanics (generate_client_and_server_certs crypto fs hosts dir)
  unfolding generate_client_and_server_certs write_material write_files
  generate-NeverPanics hosts dir =
      then-NeverPanics (draw_material crypto fs) (write_material crypto fs hosts dir)
        draw_material-NeverPanics
        λ m. key m.ca_key _ _ (
          cert _ _ _ m.ca_key _ _ (
            key m.server_key _ _ (
              cert _ _ _ m.ca_key _ _
                (key m.client_key _ _ (cert_to_file-NeverPanics _ _ _ m.ca_key _)))))
    where
      key :
          (k : Key) (path : String) (rest : Program (Disk O) (Unit {0}))
          → NeverPanics rest
          → NeverPanics (ec_private_key_to_file crypto fs k path >> rest)
      key k path rest h = then-NeverPanics _ (λ _. rest) (key_to_file-NeverPanics k path) λ _. h

      cert :
          (t p : Template) (public : Public) (k : Key) (path : String)
          (rest : Program (Disk O) (Unit {0}))
          → NeverPanics rest
          → NeverPanics (cert_to_file crypto fs t p public k path >> rest)
      cert t p public k path rest h =
          then-NeverPanics _ (λ _. rest) (cert_to_file-NeverPanics t p public k path) λ _. h

  module _ {R Server Tls : Type 0} (etcd : Etcd O R Server Tls) where
    serve-NeverPanics : (cfg : EtcdConfig R) → NeverPanics (serve etcd crypto fs cfg)
    unfolding serve
    serve-NeverPanics cfg = by_result _ λ s e. ground (arith, e)

    touch-NeverPanics : (dir : String) → NeverPanics (touch etcd crypto fs dir)
    unfolding touch
    touch-NeverPanics dir = by_result _ λ s e. ground (arith, e)

    pub run-NeverPanics :
        (peer_port client_port : String) → NeverPanics (run etcd crypto fs peer_port client_port)
    unfolding run etcd_config
    run-NeverPanics peer_port client_port =
        then-NeverPanics _ _ (touch-NeverPanics _)
          λ _. then-NeverPanics _ _ (generate-NeverPanics _ _) λ _. serve-NeverPanics _
