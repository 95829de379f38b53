-- ===== src/ApiServer/Chain/Main.antt =====
-- server.go: Run, and main of cmd/server/main.go behind the flags. A program works on the disk and on the heap
-- of hook maps.
pub mod Laws
pub mod Safe
mod Tests
use Prim.Native.String
use hohapiserver.Base.{
  String, Option, ◌⊎◌, List, Program, Result, returned, failed, panicked, give, value_or,
  unless_error, ◌>>=◌, ◌>>◌,
}
use hohapiserver.ApiServer.Server.{Completing, wrapped}
use hohapiserver.ApiServer.Server.Complete.{complete}
use hohapiserver.ApiServer.Server.Config.{with_embedded_etcd}
use hohapiserver.ApiServer.Generic.{Parts, Heap}
use hohapiserver.ApiServer.Generic.Build.{Options}
use hohapiserver.ApiServer.Chain.{Chaining, create_server_chain}
use hohapiserver.Etcd.{Etcd}
use hohapiserver.Etcd.Certificates.{Crypto, FileSystem, Disk}

module _ {A D H : Type 0} where
  abbrev pub on_disk : Program D A → Program (D × H) A
  on_disk m (d, h) = let (r, d') = m d in (r, (d', h))

  abbrev pub on_heap : Program H A → Program (D × H) A
  on_heap m (d, h) = let (r, h') = m h in (r, (d, h'))

module _ (P : Parts) (O R E Tls Key Public SigningKey Group Prepared : Type 0) where
  open P use {Server, Ip, Net, Issuer}

  -- The calls of Run and main: MaybeDefaultWithSelfSignedCerts for localhost, PrepareRun, and Run of the
  -- prepared server until the context ends, which runs the hooks and so may panic.
  pub record Running : Type 0 where
    pub etcd : Etcd O R E Tls
    pub crypto : Crypto O Key Public
    pub fs : FileSystem O
    pub chaining : Chaining P
    pub completing : Completing Ip Net Issuer SigningKey Group
    pub self_signed : String → String ⊎ String
    pub prepare_run : Server → String ⊎ Prepared
    pub serve : Prepared → Result (Unit {0})

module _ {P : Parts} {O R E Tls Key Public SigningKey Group Prepared : Type 0}
    (lib : Running P O R E Tls Key Public SigningKey Group Prepared) where
  -- Run
  unfoldable pub run : Options P → Program (Disk O × Heap P) (Unit {0})
  run s = do
    s ← on_disk (with_embedded_etcd lib.etcd lib.crypto lib.fs s)
    key_file ←
        value_or
          (wrapped "error creating self-signed certificates: " (lib.self_signed s.server_key_file))
    server ← on_heap (create_server_chain lib.chaining (record s { server_key_file = key_file }))
    prepared ← value_or (lib.prepare_run server)
    λ w. (lib.serve prepared, w)

  -- main, on the options that the flags give; an error ends it by klog.Fatal.
  unfoldable pub main :
      (List (String × String) → List (String × String))
      → Options P
      → Program (Disk O × Heap P) (Unit {0})
  main iterate s w =
      let (result, completed) = complete lib.completing iterate s in
      elim result [
        | returned _ ↦ run completed w
        | failed e ↦ (failed e, w)
        | panicked ↦ (panicked, w)
      ]
