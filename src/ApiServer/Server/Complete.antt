-- ===== src/ApiServer/Server/Complete.antt =====
-- server.go: Complete, as a program on the options. It may leave them half filled in beside an error.
use Prim.Native.String
use text.Mathlib.Text.{starts_with}
use hohapiserver.Base.{
  ℕ, ◌*◌, ◌^◌, String, ◌==◌, if◌then◌else◌, Bool, false, not, ◌&&◌, ◌||◌, leb, Option, none, some,
  ◌⊎◌, inl, inr, List, [], ◌∷◌, insert, Program, panicked, give, refuse, value_or, ◌>>=◌, ◌>>◌,
}
use hohapiserver.ApiServer.Ints.{ℤ, pos, negsuc}
use hohapiserver.ApiServer.WatchCache.{
  SizeError, invalid_value, invalid_size, negative_size, parse_watch_cache_sizes, override,
  write_watch_cache_sizes,
}
use hohapiserver.ApiServer.Authorization.{missing, is_empty}
use hohapiserver.ApiServer.Authentication.{ServiceAccounts, apply_authorization}
use hohapiserver.ApiServer.Server.{ServerOptions, Completing, wrapped, get_service_ip_and_ranges}

abbrev pub size_error_text : SizeError → String
size_error_text (invalid_value c) = String.◌++◌ "invalid value of watch cache size: " c
size_error_text (invalid_size c) = String.◌++◌ "invalid size of watch cache size: " c
size_error_text (negative_size c) = String.◌++◌ "watch cache size cannot be negative: " c

abbrev pub as_text : {A : Type 0} → SizeError ⊎ A → String ⊎ A
as_text (inl e) = inl (size_error_text e)
as_text (inr a) = inr a

-- time.Hour and 2^32 seconds, in nanoseconds.
abbrev pub one_hour : ℕ
one_hour = 3600000000000

abbrev pub longest : ℕ
longest = 2 ^ 32 * 1000000000

-- The test of MaxExpiration, which passes at zero.
unfoldable pub expiration_allowed : ℤ → Bool
expiration_allowed (pos n) = (leb n 0) || (leb one_hour n && leb n longest)
expiration_allowed (negsuc n) = false

-- The keys that RuntimeConfig is rid of.
unfoldable pub is_core : String → Bool
is_core key =
    (key == "v1" || starts_with key "v1/") || (key == "api/v1" || starts_with key "api/v1/")

-- delete(m, key)
unfoldable pub delete : String → List (String × String) → List (String × String)
delete key [] = []
delete key (entry ∷ rest) =
    let later = delete key rest in if entry.0 == key then later else entry ∷ later

-- One round of the loop over RuntimeConfig.
unfoldable pub rename_entry : String → String → List (String × String) → List (String × String)
rename_entry key value cfg =
    let renamed = if is_core key then insert "/v1" value (delete key cfg) else cfg in
    if key == "api/legacy" then delete key renamed else renamed

-- The loop, over the entries in the order that the map gives. The entry under /v1 that it makes may be met
-- by it as well, and is left as it is.
unfoldable pub rename_loop :
    List (String × String) → List (String × String) → List (String × String)
rename_loop [] cfg = cfg
rename_loop ((key, value) ∷ rest) cfg = rename_loop rest (rename_entry key value cfg)

-- The first issuer, if it is not empty.
abbrev pub given_issuer : List String → Option String
given_issuer [] = none
given_issuer (issuer ∷ rest) = if missing issuer then none else some issuer

-- `s.field = …`
abbrev set : {S : Type 0} → (S → S) → Program S (Unit {0})
set f s = give tt (f s)

-- s.Authentication.ServiceAccounts, which must not be nil.
abbrev accounts :
    {C H Ip Net Issuer : Type 0} → Program (ServerOptions C H Ip Net Issuer) ServiceAccounts
accounts s = elim s.authentication.service_accounts [ none ↦ (panicked, s) | some a ↦ give a s ]

module _ {C H Ip Net Issuer Key R : Type 0} (lib : Completing Ip Net Issuer Key R) where
  unfoldable pub complete_addresses : Program (ServerOptions C H Ip Net Issuer) (Unit {0})
  complete_addresses = do
    λ s.
        (value_or (lib.default_advertise_address s.advertise_address) >>= λ address.
        set (λ t. record t { advertise_address = address }))
          s
    λ s.
        (value_or (get_service_ip_and_ranges lib s.service_cluster_ip_ranges) >>= λ r. set (λ t.
            record t {
              primary_service_cluster_ip_range = some r.primary;
              secondary_service_cluster_ip_range = r.secondary;
              api_server_service_ip = some r.service_ip;
            }))
          s
    λ s.
        (value_or (
              wrapped "error creating self-signed certificates: "
                (lib.self_signed s.advertise_address s.api_server_service_ip s.server_key_file))
            >>= λ key_file. set (λ t. record t { server_key_file = key_file }))
          s

  unfoldable pub complete_external_host : Program (ServerOptions C H Ip Net Issuer) (Unit {0})
  complete_external_host s =
      if missing s.external_host
      then elim s.advertise_address [
        | some ip ↦ give tt (record s { external_host = lib.ip_text ip })
        | none ↦
            (value_or (wrapped "error finding host name: " lib.hostname) >>= λ host.
            set (λ t. record t { external_host = host }))
              s
      ]
      else give tt s

  -- The default of the key files of the service accounts.
  unfoldable pub complete_key_files : Program (ServerOptions C H Ip Net Issuer) (Unit {0})
  complete_key_files s =
      if missing s.service_account_signing_key_file
      then (accounts >>= λ a t.
            if is_empty a.key_files && not (missing t.server_key_file)
            then if lib.is_valid_key_file t.server_key_file
              then give tt (record t {
                authentication = record t.authentication {
                  service_accounts = some (record a { key_files = t.server_key_file ∷ [] });
                };
              })
              else give tt t
            else give tt t)
          s
      else give tt s

  -- The token issuer.
  unfoldable pub complete_issuer : Program (ServerOptions C H Ip Net Issuer) (Unit {0})
  complete_issuer s =
      if missing s.service_account_signing_key_file
      then give tt s
      else (accounts >>= λ a. elim (given_issuer a.issuers) [
        | none ↦ give tt
        | some first ↦ do
          key ← value_or (
              wrapped "failed to parse service-account-issuer-key-file: "
                (lib.private_key_from_file s.service_account_signing_key_file))
          if expiration_allowed a.max_expiration
              then give tt
              else refuse
                  "the service-account-max-token-expiration must be between 1 hour and 2^32 seconds"
          issuer ←
              value_or
                (wrapped "failed to build token generator: " (lib.jwt_token_generator first key))
          set (λ t. record t {
            service_account_issuer = some issuer;
            service_account_token_max_expiration = a.max_expiration;
          })
      ])
          s

  unfoldable pub complete_watch_cache : Program (ServerOptions C H Ip Net Issuer) (Unit {0})
  complete_watch_cache s =
      if s.enable_watch_cache
      then (do
        user ← value_or (as_text (parse_watch_cache_sizes lib.resources s.watch_cache_sizes))
        written ← value_or (
            as_text (
              write_watch_cache_sizes lib.resources
                (lib.sizes_in_order (override lib.resources user lib.default_watch_cache_sizes))))
        set (λ t. record t { watch_cache_sizes = written }))
          s
      else give tt s

  -- Complete; `iterate` is the order in which a map is gone over.
  unfoldable pub complete :
      (List (String × String) → List (String × String))
      → Program (ServerOptions C H Ip Net Issuer) (Unit {0})
  complete iterate = do
    complete_addresses
    complete_external_host
    set (λ s. record s {
      authentication = apply_authorization lib.modes s.authorization s.authentication;
    })
    complete_key_files
    complete_issuer
    complete_watch_cache
    set (λ s. record s { runtime_config = rename_loop (iterate s.runtime_config) s.runtime_config })
