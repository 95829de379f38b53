-- ===== src/ApiServer/Server/Tests.antt =====
-- Complete and CreateKubeAPIServerConfig at concrete options.
use hohapiserver.Base.{
  is_some, String, ◌==◌, arith, ◌≡◌, refl, ◌≢◌, ◌↔◌, true, false, none, some, inr, List, [], ◌∷◌,
  All, map, elem, lookup, insert, returned,
}
use hohapiserver.ApiServer.Ints.{pos}
use hohapiserver.ApiServer.Texts.{split, lacks, read, unsigned, atoi}
use hohapiserver.ApiServer.WatchCache.{
  Sizes, put, size_of_tokens, parse_size, parse_loop, parse_watch_cache_sizes,
  write_watch_cache_sizes, override,
}
use hohapiserver.ApiServer.WatchCache.RoundTrip.{absent, fresh}
use hohapiserver.ApiServer.WatchCache.Sizes.{override-RoundTrip}
use hohapiserver.ApiServer.Authentication.{with_all, apply_authorization}
use hohapiserver.ApiServer.Etcd.{validate_token_request}
use hohapiserver.ApiServer.Server.{secondary_range, ranges_of_list, get_service_ip_and_ranges}
use hohapiserver.ApiServer.Server.Complete.{
  expiration_allowed, given_issuer, is_core, delete, rename_entry, rename_loop, complete_addresses,
  complete_external_host, complete_key_files, complete_issuer, complete_watch_cache, complete,
}
use hohapiserver.ApiServer.Server.Laws.{complete-validates_iff}
use hohapiserver.ApiServer.Server.RuntimeConfig.{left_alone, rename_loop_lem}
use hohapiserver.ApiServer.Server.Samples.{
  texts, default_sizes, completing, Opts, with_issuer, signing, no_order,
}

abbrev user_sizes : List String
user_sizes = "pods#50" ∷ "secrets#0" ∷ []

abbrev parsed_sizes : Sizes String
parsed_sizes = ("pods", pos 50) ∷ ("secrets", pos 0) ∷ []

reads : parse_watch_cache_sizes texts user_sizes ≡ inr parsed_sizes
unfolding parse_watch_cache_sizes parse_loop parse_size size_of_tokens put split atoi unsigned read
reads = refl

overrides :
    override texts parsed_sizes default_sizes
    ≡ ("events", pos 0) ∷ ("pods", pos 50) ∷ ("secrets", pos 0) ∷ []
unfolding override put
overrides = refl

clean_events : lacks 35 "events" ≡ true
unfolding lacks
clean_events = refl

clean_pods : lacks 35 "pods" ≡ true
unfolding lacks
clean_pods = refl

differ_by_key : fresh texts [] ("events" ∷ "pods" ∷ []) ≡ true
unfolding fresh absent
differ_by_key = refl

override-RoundTrip_example :
    (written : List String) × (write_watch_cache_sizes texts
        (override texts parsed_sizes default_sizes)
      ≡ inr written)
    × (parse_watch_cache_sizes texts written ≡ inr (override texts parsed_sizes default_sizes))
override-RoundTrip_example =
    override-RoundTrip texts user_sizes parsed_sizes default_sizes (λ s clean. (clean, refl))
      (((clean_events, refl), omega arith), (((clean_pods, refl), omega arith), tt)) differ_by_key
      reads

abbrev runtime : List (String × String)
runtime = ("v1", "true") ∷ ("api/v1", "false") ∷ ("api/legacy", "true") ∷ ("apps/v1", "true") ∷ []

abbrev reversed : List (String × String)
reversed = ("apps/v1", "true") ∷ ("api/legacy", "true") ∷ ("api/v1", "false") ∷ ("v1", "true") ∷ []

-- Two orders of the same map leave different values under /v1.
order_matters :
    (lookup "/v1" (rename_loop runtime runtime) ≡ some "false")
    × (lookup "/v1" (rename_loop reversed runtime) ≡ some "true")
unfolding rename_loop rename_entry is_core delete insert lookup
order_matters = (refl, refl)

All-met : All (λ e. elem e.0 (map (λ t. t.0) reversed) ≡ true) runtime
unfolding elem
All-met = (refl, (refl, (refl, (refl, tt))))

rename_loop_example :
    All (λ e. left_alone e.0 ≡ true) (rename_loop reversed runtime)
    × ((read : String)
        → left_alone read ≡ true
        → ("/v1" == read) ≡ false
        → lookup read (rename_loop reversed runtime) ≡ lookup read runtime)
rename_loop_example = rename_loop_lem reversed runtime All-met

abbrev completed : Opts → Opts
unfolding complete complete_addresses complete_external_host complete_key_files complete_issuer
    complete_watch_cache get_service_ip_and_ranges ranges_of_list secondary_range expiration_allowed
    apply_authorization with_all rename_loop
completed s = (complete completing no_order s).1

completes : complete completing no_order signing ≡ (returned tt, completed signing)
unfolding complete complete_addresses complete_external_host complete_key_files complete_issuer
    complete_watch_cache get_service_ip_and_ranges ranges_of_list secondary_range expiration_allowed
    apply_authorization with_all rename_loop
completes = refl

complete-validates_iff_example :
    ((validate_token_request
          (completed signing).service_account_signing_key_file
          (completed signing).authentication
          (is_some (completed signing).service_account_issuer)
        ≡ some [])
      ↔ ((signing.service_account_signing_key_file ≢ "")
          × (given_issuer with_issuer.issuers ≢ none)))
    × ((is_some (completed signing).service_account_issuer ≡ true)
        → expiration_allowed with_issuer.max_expiration ≡ true)
complete-validates_iff_example =
    complete-validates_iff completing no_order signing (completed signing) with_issuer refl refl
      completes
