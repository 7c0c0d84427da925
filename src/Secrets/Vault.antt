-- ===== src/Secrets/Vault.antt =====
-- internal/secrets/vault/provider.go: secrets of a Vault server. The server behind the library is a
-- function of the version of its store, the mount path and the name.
use certplane.Base.{
  ℕ, zero, suc, Bool, ◌==◌, Option, none, some, [], ◌∷◌, Result, ok, err, ◌>>=◌, ◌>>◌, refuse,
  if◌then◌else◌,
}
use mathlib.Core.List.{reverse}
use certplane.Base.Int.{ℤ, pos}
use certplane.Base.Text.{Text, codes, is_empty, trim_space}
use certplane.Base.Dict.{Dict, lookup}
use certplane.Clock.{Duration}
use certplane.Settings.{default_text, default_int, seconds}
use certplane.Secrets.{
  SecretError, secret_not_found, secret_empty, empty_name, not_a_string, unsupported_version,
  vault_failed, Provider, FileRead, no_file, unreadable, holds,
}

-- `Config`
pub record VaultProviderConfig : Type 0 where
  pub address : Text
  pub token : Text
  pub token_file : Text
  pub mount_path : Text
  pub kv_version : ℤ
  pub key : Text
  pub timeout : Duration
  pub namespace : Text

-- A value of a secret: `any` of Go.
pub data VaultValue : Type 0 where
  a_string : Text → VaultValue
  another_value : VaultValue

-- An error of the library: the response of the server with its status, or another one.
pub data VaultError : Type 0 where
  response : ℕ → VaultError
  another_error : VaultError

-- What a read gives: no secret, or one without data, is `none`.
abbrev pub Answer : Type 0
Answer = Result VaultError (Option (Dict VaultValue))

-- What the provider sends with a read: the token, the namespace, and where.
pub record VaultClient : Type 0 where
  pub address : Text
  pub token : Text
  pub namespace : Text
  pub timeout : Duration

pub record VaultServer : Type 0 where
  pub kv1 : VaultClient → Text → Text → Answer
  pub kv2 : VaultClient → Text → Text → Answer

pub record VaultProvider : Type 0 where
  pub cfg : VaultProviderConfig
  pub client : VaultClient

pub data VaultNewError : Type 0 where
  no_address reading_token_file no_token creating_client : VaultNewError

-- The text behind its leading slashes.
unfoldable pub trim_left_slashes : Text → Text
trim_left_slashes [] = []
trim_left_slashes (c ∷ s) = let rest = trim_left_slashes s in if c == b'/' then rest else c ∷ s

-- `strings.TrimRight(s, "/")` and `strings.Trim(s, "/")`
unfoldable pub trim_right_slashes : Text → Text
unfolding trim_left_slashes
trim_right_slashes s = reverse (trim_left_slashes (reverse s))

unfoldable pub trim_slashes : Text → Text
unfolding trim_right_slashes
trim_slashes s = trim_right_slashes (trim_left_slashes s)

-- The defaults of `New`.
unfoldable pub vault_defaults : VaultProviderConfig → VaultProviderConfig
vault_defaults c = record c {
  mount_path = default_text c.mount_path (codes "secret");
  kv_version = default_int c.kv_version (pos 2);
  key = default_text c.key (codes "value");
  timeout = default_int c.timeout (seconds 10);
}

token_of_file : FileRead → Result VaultNewError Text
token_of_file no_file = err reading_token_file
token_of_file unreadable = err reading_token_file
token_of_file (holds text) = ok text

-- The token before it is trimmed; `getenv` is `os.Getenv`.
raw_token : (Text → Text) → (Text → FileRead) → VaultProviderConfig → Result VaultNewError Text
unfolding token_of_file
raw_token getenv read cfg =
    if is_empty cfg.token
    then (if is_empty cfg.token_file
        then ok (default_text (getenv (codes "VAULT_TOKEN")) (getenv (codes "BAO_TOKEN")))
        else token_of_file (read cfg.token_file))
    else ok cfg.token

-- `resolveToken`
unfoldable pub resolve_token :
    (Text → Text) → (Text → FileRead) → VaultProviderConfig → Result VaultNewError Text
unfolding raw_token
resolve_token getenv read cfg = do
  token ← raw_token getenv read cfg
  refuse (is_empty (trim_space token)) no_token
  ok (trim_space token)

-- `New`, where `makes_client` tells whether the library takes the address.
unfoldable pub new_vault_provider :
    (Text → Text)
    → (Text → FileRead)
    → (Text → Bool)
    → VaultProviderConfig
    → Result VaultNewError VaultProvider
new_vault_provider getenv read makes_client cfg0 = do
  refuse (is_empty cfg0.address) no_address
  let cfg = vault_defaults cfg0
  token ← resolve_token getenv read cfg
  let address = trim_right_slashes cfg.address
  if makes_client address
      then ok (record {
        cfg = cfg;
        client = record {
          address = address;
          token = token;
          namespace = cfg.namespace;
          timeout = cfg.timeout;
        };
      })
      else err creating_client

-- `normalizeError`
normalize_error : VaultError → SecretError
normalize_error (response status) = if status == 404 then secret_not_found else vault_failed
normalize_error another_error = vault_failed

data_of : Answer → Result SecretError (Dict VaultValue)
unfolding normalize_error
data_of (err e) = err (normalize_error e)
data_of (ok none) = err secret_not_found
data_of (ok (some d)) = ok d

-- The switch over the version of the store.
read_version : VaultServer → VaultProvider → ℤ → Text → Result SecretError (Dict VaultValue)
unfolding data_of
read_version s p (pos (suc zero)) name = data_of (s.kv1 p.client p.cfg.mount_path name)
read_version s p (pos (suc (suc zero))) name = data_of (s.kv2 p.client p.cfg.mount_path name)
read_version s p _ name = err unsupported_version

-- `read`
unfoldable pub read_vault :
    VaultServer → VaultProvider → Text → Result SecretError (Dict VaultValue)
unfolding read_version
read_vault s p name = read_version s p p.cfg.kv_version name

pub string_value : Option VaultValue → Result SecretError Text
string_value none = err secret_not_found
string_value (some another_value) = err not_a_string
string_value (some (a_string val)) = ok val

-- `Get`
unfoldable pub vault_get : VaultServer → VaultProvider → Provider
unfolding string_value
vault_get s p name0 = do
  let name = trim_slashes (trim_space name0)
  refuse (is_empty name) empty_name
  fields ← read_vault s p name
  val ← string_value (lookup p.cfg.key fields)
  refuse (is_empty (trim_space val)) secret_empty
  ok (trim_space val)
