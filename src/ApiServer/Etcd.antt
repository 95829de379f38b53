-- ===== src/ApiServer/Etcd.antt =====
-- options/embeddedetcd.go: the options of the embedded etcd, and validateTokenRequest of
-- options/options.go.
use hohapiserver.Base.{
  String, Bool, true, false, not, ◌&&◌, ◌||◌, Option, none, some, List, [], ◌∷◌, ◌++◌,
  if◌then◌else◌,
}
use hohapiserver.ApiServer.Errors.{error_if}
use hohapiserver.ApiServer.Ints.{ℤ, pos}
use hohapiserver.ApiServer.Authorization.{missing, is_empty}
use hohapiserver.ApiServer.Authentication.{AuthenticationOptions}

-- EmbeddedEtcd
pub record EmbeddedEtcd : Type 0 where
  pub enabled : Bool
  pub directory : String
  pub peer_port : String
  pub client_port : String
  pub wal_size_bytes : ℤ

-- NewEmbeddedEtcd
abbrev pub new_embedded_etcd : EmbeddedEtcd
new_embedded_etcd = record {
  enabled = false;
  directory = ".ocmconfig";
  peer_port = "2380";
  client_port = "2379";
  wal_size_bytes = pos 0;
}

pub data EtcdError : Type 0 where
  peer_port_missing client_port_missing : EtcdError

-- Validate
unfoldable pub validate_etcd : EmbeddedEtcd → List EtcdError
validate_etcd e =
    if e.enabled
    then error_if (missing e.peer_port) peer_port_missing
      ++ error_if (missing e.client_port) client_port_missing
    else []

pub data TokenError : Type 0 where
  flags_required given_apart : TokenError

-- len(issuers) != 0 && issuers[0] != ""
abbrev first_given : List String → Bool
first_given [] = false
first_given (issuer ∷ rest) = not (missing issuer)

unfoldable pub token_errors : Bool → Bool → List TokenError
token_errors attempted succeeded =
    error_if (not attempted) flags_required ++ error_if (attempted && not succeeded) given_apart

-- validateTokenRequest, from the signing key file, the authentication options and whether a token issuer
-- was made; `none` is a panic at nil service account options, which are read only without a key file.
unfoldable pub validate_token_request :
    {C H : Type 0} → String → AuthenticationOptions C H → Bool → Option (List TokenError)
unfolding token_errors
validate_token_request key_file o issuer_made =
    if not (missing key_file)
    then some (token_errors true issuer_made)
    else elim o.service_accounts [
      | none ↦ none
      | some a ↦
          some (token_errors (first_given a.issuers || not (is_empty o.api_audiences)) issuer_made)
    ]
