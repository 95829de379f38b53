-- ===== src/Etcd/Signed.antt =====
-- etcd/embedded.go: the keys and certificates that a successful run leaves on the disk.
use hohapiserver.Base.{
  sum_cases, ℕ, String, inl, inr, List, ◌∷◌, ◌≡◌, refl, arith, Program, returned, >>=-returned,
  ◌>>◌,
}
use hohapiserver.Etcd.Certificates.{
  Template, Block, Disk, Crypto, FileSystem, join, cert_to_file, ec_private_key_to_file,
  write_files,
}

module _ {O Key Public : Type 0} (crypto : Crypto O Key Public) (fs : FileSystem O) where
  -- The block is the encoding of the private key.
  abbrev pub HoldsKey : Key → Block → Type 0
  HoldsKey key block =
      (bytes : List ℕ) × (crypto.marshal_ec_private_key key ≡ inr bytes)
      × (block ≡ record { kind = "EC PRIVATE KEY"; bytes = bytes })

  -- The block is a certificate made of the templates, for the public key and signed with the private one.
  abbrev pub HoldsCert : Template → Template → Public → Key → Block → Type 0
  HoldsCert template parent public private block =
      (bytes : List ℕ) × (o : O) × (o' : O) × (crypto.create_certificate template parent public
          private o
        ≡ (inr bytes, o'))
      × (block ≡ record { kind = "CERTIFICATE"; bytes = bytes })

  key_written :
      (key : Key) (path : String) (d d' : Disk O)
      → ec_private_key_to_file crypto fs key path d ≡ (returned tt, d')
      → (block : Block) × HoldsKey key block × (d'.files ≡ (path, block) ∷ d.files)
  unfolding ec_private_key_to_file
  key_written key path d d' h = elim (sum_cases (crypto.marshal_ec_private_key key)) [
    | inl (e, q) ↦ ground (arith, h, q)
    | inr (bytes, q) ↦
        (record { kind = "EC PRIVATE KEY"; bytes = bytes }, (bytes, q, refl), ground (arith, h, q))
  ]

  cert_written :
      (template parent : Template) (public : Public) (private : Key) (path : String) (d d' : Disk O)
      → cert_to_file crypto fs template parent public private path d ≡ (returned tt, d')
      → (block : Block) × HoldsCert template parent public private block
        × (d'.files ≡ (path, block) ∷ d.files)
  unfolding cert_to_file
  cert_written template parent public private path d d' h =
      elim (sum_cases (crypto.create_certificate template parent public private d.outer).0) [
        | inl (e, q) ↦ ground (arith, h, q)
        | inr (bytes, q) ↦ (
          record { kind = "CERTIFICATE"; bytes = bytes },
          (
            bytes,
            d.outer,
            (crypto.create_certificate template parent public private d.outer).1,
            ground (arith, q),
            refl,
          ),
          ground (arith, h, q),
        )
      ]

  key_then :
      {key : Key} {path : String} {rest : Program (Disk O) (Unit {0})} (d : Disk O) {d' : Disk O}
      → (ec_private_key_to_file crypto fs key path >> rest) d ≡ (returned tt, d')
      → (block : Block) × (t : Disk O) × HoldsKey key block
        × (t.files ≡ (path, block) ∷ d.files)
        × (rest t ≡ (returned tt, d'))
  key_then {key} {path} {rest} d {d'} h =
      let (u, t, e, h') = >>=-returned (ec_private_key_to_file crypto fs key path) (λ _. rest) h in
      let (block, holds, f) = key_written key path d t e in (block, t, holds, f, h')

  cert_then :
      {template parent : Template} {public : Public} {private : Key} {path : String}
      {rest : Program (Disk O) (Unit {0})} (d : Disk O) {d' : Disk O}
      → (cert_to_file crypto fs template parent public private path >> rest) d ≡ (returned tt, d')
      → (block : Block) × (t : Disk O) × HoldsCert template parent public private block
        × (t.files ≡ (path, block) ∷ d.files)
        × (rest t ≡ (returned tt, d'))
  cert_then {template} {parent} {public} {private} {path} {rest} d {d'} h =
      let (u, t, e, h') =
        >>=-returned (cert_to_file crypto fs template parent public private path) (λ _. rest) h in
      let (block, holds, f) = cert_written template parent public private path d t e in
      (block, t, holds, f, h')

  -- The six files, the latest first.
  abbrev pub Six :
      Template
      → Template
      → Template
      → Key
      → Key
      → Key
      → String
      → List (String × Block)
      → List (String × Block)
      → Type 0
  Six ca server client ca_key server_key client_key dir before after =
      (k1 : Block) × (c1 : Block) × (k2 : Block) × (c2 : Block) × (k3 : Block) × (c3 : Block)
      × HoldsKey ca_key k1
      × HoldsCert ca ca (crypto.public_of ca_key) ca_key c1
      × HoldsKey server_key k2
      × HoldsCert server ca (crypto.public_of server_key) ca_key c2
      × HoldsKey client_key k3
      × HoldsCert client ca (crypto.public_of client_key) ca_key c3
      × (after
          ≡ (join (join dir "client") "cert.pem", c3)
            ∷ (join (join dir "client") "key.pem", k3)
            ∷ (join (join dir "peer") "cert.pem", c2)
            ∷ (join (join dir "peer") "key.pem", k2)
            ∷ (join (join dir "ca") "cert.pem", c1)
            ∷ (join (join dir "ca") "key.pem", k1)
            ∷ before)

  pub files_written :
      (ca server client : Template) (ca_key server_key client_key : Key) (dir : String)
      (d d' : Disk O)
      → write_files crypto fs ca server client ca_key server_key client_key dir d
        ≡ (returned tt, d')
      → Six ca server client ca_key server_key client_key dir d.files d'.files
  unfolding write_files
  files_written ca server client ca_key server_key client_key dir d d' h =
      let (k1, d1, K1, f1, h1) = key_then {key = ca_key} d h in
      let (c1, d2, C1, g1, h2) = cert_then {template = ca} d1 h1 in
      let (k2, d3, K2, f2, h3) = key_then {key = server_key} d2 h2 in
      let (c2, d4, C2, g2, h4) = cert_then {template = server} d3 h3 in
      let (k3, d5, K3, f3, h5) = key_then {key = client_key} d4 h4 in
      let (c3, C3, g3) = cert_written client ca (crypto.public_of client_key) ca_key _ d5 d' h5 in
      (k1, c1, k2, c2, k3, c3, K1, C1, K2, C2, K3, C3, cc (g3, f3, g2, f2, g1, f1))
