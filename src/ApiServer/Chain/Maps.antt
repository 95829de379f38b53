-- ===== src/ApiServer/Chain/Maps.antt =====
-- The configurations for extensions and for the aggregator: each has an empty map of hooks of its own, and
-- making it leaves all other maps alone.
use hohapiserver.Base.{
  ℕ, ◌<◌, ◌≤◌, ◌≡◌, arith, Option, none, some, List, [], Ends, at_value, >>=-Ends,
}
use hohapiserver.ApiServer.Generic.{Parts, extensions, aggregation, GenericConfig, Heap, new_map}
use hohapiserver.ApiServer.Generic.Build.{called}
use hohapiserver.ApiServer.Generic.Build.Laws.{Touches-trans, called-Ends}
use hohapiserver.ApiServer.Generic.Build.Ending.{Extends, fresh-Extends}
use hohapiserver.ApiServer.Chain.{
  AuthWrapper, Chaining, extensions_etcd, aggregator_etcd, for_aggregator,
  create_api_extensions_config, create_aggregator_config,
}

-- A new map in a heap that has grown: its number is new, and it is empty.
pub record Fresh {P : Parts} (h : Heap P) (ref : ℕ) (h' : Heap P) : Type 0 where
  pub new : h.next ≤ ref
  pub there : ref < h'.next
  pub empty : h'.maps ref ≡ []
  pub extends : Extends h h'

allocated-Fresh : {P : Parts} {h h' : Heap P} → Extends h h' → Fresh h h'.next (new_map h').1
allocated-Fresh {h' = h'} e = record {
  new = e.grows;
  there = omega arith;
  empty = ground arith;
  extends = record {
    grows = omega (arith, e.grows);
    old_kept = λ r below. ground (arith, e.old_kept r, e.grows);
  };
}

module _ {P : Parts} {X : Type 0} (lib : Chaining P) where
  pub create_api_extensions_config-Ends :
      (kube : GenericConfig P) (i : P.Informers) (l : List P.Initializer) (n : ℕ) (r : P.Resolver)
      (w : AuthWrapper P) (h : Heap P)
      → Ends X (λ c h'. Fresh h c.hooks h') (create_api_extensions_config lib kube i l n r w h)
  unfolding create_api_extensions_config
  create_api_extensions_config-Ends kube i l n r w h =
      let h0 = (new_map h).1 in
      let first = lib.configuring.calls.admission i kube.loopback l in
      let second = lib.configuring.calls.api_enablement extensions in
      >>=-Ends (called first h.next (record kube { rest_options = none })) _ h0
        (called-Ends first h.next (record kube { rest_options = none }) h0)
        λ c1 h1 r1.
          >>=-Ends (called second h.next (record c1 { rest_options = some (extensions_etcd lib) }))
            _ h1
            (called-Ends second h.next (record c1 { rest_options = some (extensions_etcd lib) }) h1)
            λ c2 h2 r2. at_value (allocated-Fresh (fresh-Extends h h2 (Touches-trans r1.1 r2.1)))

  pub create_aggregator_config-Ends :
      (kube : GenericConfig P) (i : P.Informers) (r : P.Resolver) (d : Option P.Dialer)
      (l : List P.Initializer) (h : Heap P)
      → Ends X (λ c h'. Fresh h c.hooks h') (create_aggregator_config lib kube i r d l h)
  unfolding create_aggregator_config
  create_aggregator_config-Ends kube i r d l h =
      let h0 = (new_map h).1 in
      let first = lib.configuring.calls.admission i kube.loopback l in
      let second = lib.configuring.calls.api_enablement aggregation in
      >>=-Ends (called first h.next (for_aggregator lib kube)) _ h0
        (called-Ends first h.next (for_aggregator lib kube) h0)
        λ c1 h1 r1.
          >>=-Ends (called second h.next (record c1 { rest_options = some (aggregator_etcd lib) }))
            _ h1
            (called-Ends second h.next (record c1 { rest_options = some (aggregator_etcd lib) }) h1)
            λ c2 h2 r2. at_value (allocated-Fresh (fresh-Extends h h2 (Touches-trans r1.1 r2.1)))
