-- ===== src/Toll/Credential.antt =====
-- client/toll/toll.go and registry.go: the credential of a company, what a provider needs of it, and
-- NewPrePassSFTP of prepass.go. The variables of the process are a parameter.
pub mod Settings
use backend_pkg.Common.{
  ℕ, ◌≡◌, Bool, true, false, ◌&&◌, ◌||◌, not, List, [], ◌∷◌, Bytes, codes, ◌=ᵇ◌, ◌==◌,
  if◌then◌else◌, Option, none, some, trim_space, to_lower, contains, atoi, ℤ, pos, negsuc, ltb,
}
use backend_pkg.Toll.Hashes.{ProviderType}
use backend_pkg.Toll.PrePass.{prepass_sftp}

abbrev all_provider_types : List ProviderType
all_provider_types = prepass_sftp ∷ []

unfoldable pub is_valid : ProviderType → Bool
is_valid = contains all_provider_types

pub record Credential : Type 0 where
  pub provider_type : ProviderType
  pub account_name : Bytes
  pub username : Bytes
  pub secret : Bytes
  pub host : Bytes
  pub port : ℤ
  pub directory : Bytes
  pub host_key : Bytes
  pub tls_mode : Bytes
  pub passive : Option Bool
  pub base_url : Bytes

-- The secret is replaced by a fixed marker.
unfoldable redacted : Credential → Credential
redacted c = if c.secret =ᵇ [] then c else record c { secret = codes "[REDACTED]" }

pub record Rules : Type 0 where
  pub transport : Bytes
  pub requires_username : Bool
  pub requires_secret : Bool
  pub requires_host : Bool
  pub requires_base_url : Bool
  pub file_extensions : List Bytes

unfoldable pub rules_for : ProviderType → Rules
rules_for pt =
    if pt =ᵇ prepass_sftp
    then record {
      transport = codes "sftp";
      requires_username = true;
      requires_secret = true;
      requires_host = true;
      requires_base_url = false;
      file_extensions = codes ".xlsx" ∷ codes ".xls" ∷ codes ".csv" ∷ [];
    }
    else record {
      transport = [];
      requires_username = false;
      requires_secret = false;
      requires_host = false;
      requires_base_url = false;
      file_extensions = [];
    }

pub data CredentialError : Type 0 where
  unknown_provider missing_username missing_secret missing_base_url missing_host : CredentialError

abbrev pub is_white : Bytes → Bool
is_white s = trim_space s =ᵇ []

-- `os.Getenv`.
module _ (getenv : Bytes → Bytes) where
  unfoldable pub is_non_prod_app_env : Bool
  is_non_prod_app_env =
      contains (codes "dev" ∷ codes "stage" ∷ codes "staging" ∷ codes "local" ∷ [])
        (to_lower (trim_space (getenv (codes "APP_ENV"))))

  unfoldable pub validate : Credential → Option CredentialError
  validate c =
      let r = rules_for c.provider_type in
      if not (is_valid c.provider_type)
      then some unknown_provider
      else if r.requires_username && is_white c.username
      then some missing_username
      else if r.requires_secret && c.secret =ᵇ []
      then some missing_secret
      else if r.requires_base_url && is_white c.base_url
      then some missing_base_url
      else if r.requires_host && (is_white c.host && not is_non_prod_app_env)
      then some missing_host
      else none

  unfoldable pub first_non_empty_env : List Bytes → Bytes
  first_non_empty_env [] = []
  first_non_empty_env (n ∷ ns) =
      let rest = first_non_empty_env ns in
      if trim_space (getenv n) =ᵇ [] then rest else trim_space (getenv n)

  pub record PrePassSftp : Type 0 where
    pub host : Bytes
    pub port : ℤ
    pub directory : Bytes
    pub username : Bytes
    pub password : Bytes
    pub host_key : Bytes
    pub account_name : Bytes

  abbrev test_host : Bytes
  test_host = first_non_empty_env (codes "TEST_PREPASS_SFTP_HOST" ∷ [])

  abbrev test_directory : Bytes
  test_directory = first_non_empty_env (codes "TEST_PREPASS_SFTP_DIR" ∷ [])

  abbrev text_or : Bytes → Bytes → Bytes
  text_or old [] = old
  text_or old (c ∷ s) = c ∷ s

  -- A positive number only.
  abbrev port_or : ℤ → Option ℤ → ℤ
  port_or old none = old
  port_or old (some (negsuc n)) = old
  port_or old (some (pos n)) = if ltb 0 n then pos n else old

  abbrev or_default : ℤ → ℤ
  or_default (pos n) = if n == 0 then pos 22 else pos n
  or_default (negsuc n) = negsuc n

  unfoldable pub new_prepass_sftp : Credential → PrePassSftp
  new_prepass_sftp c =
      let host = trim_space c.host in
      let directory = trim_space c.directory in
      let test_port = first_non_empty_env (codes "TEST_PREPASS_SFTP_PORT" ∷ []) in
      record {
        host = if is_non_prod_app_env then text_or host test_host else host;
        port = or_default (if is_non_prod_app_env then port_or c.port (atoi test_port) else c.port);
        directory = if is_non_prod_app_env then text_or directory test_directory else directory;
        username = c.username;
        password = c.secret;
        host_key = c.host_key;
        account_name = trim_space c.account_name;
      }

  -- The only known type is that of PrePass.
  unfoldable pub new_provider : Credential → Option PrePassSftp
  unfolding validate new_prepass_sftp
  new_provider c = elim (validate c) [
    | some e ↦ none
    | none ↦ if c.provider_type =ᵇ prepass_sftp then some (new_prepass_sftp c) else none
  ]

  -- `json.Unmarshal` of a stored credential is a parameter.
  unfoldable pub new_provider_from_json : (Bytes → Option Credential) → Bytes → Option PrePassSftp
  unfolding new_provider
  new_provider_from_json unmarshal stored =
      if stored =ᵇ []
      then none
      else elim (unmarshal stored) [ none ↦ none | some c ↦ new_provider c ]
