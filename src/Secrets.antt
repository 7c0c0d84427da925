-- ===== src/Secrets.antt =====
-- internal/secrets: the providers of secrets, env/provider.go and file/provider.go here and
-- vault/provider.go in the child. The environment and the files are functions of a name.
pub mod Vault
pub mod Filled
use certplane.Base.{Bool, true, false, Option, none, some, Result, ok, err, if◌then◌else◌}
use certplane.Base.Text.{Text, is_empty, trim_space}

-- `ErrSecretNotFound` and `ErrSecretEmpty`, and the other errors of the providers.
pub data SecretError : Type 0 where
  secret_not_found secret_empty reading_file empty_name not_a_string : SecretError
  unsupported_version vault_failed : SecretError

-- `Provider`: its operation `Get`.
abbrev pub Provider : Type 0
Provider = Text → Result SecretError Text

pub found : Option Text → Result SecretError Text
found none = err secret_not_found
found (some val) = if is_empty val then err secret_empty else ok val

-- `Get` of the environment, where `lookup_env` is `os.LookupEnv`.
unfoldable pub env_get : (Text → Option Text) → Provider
unfolding found
env_get lookup_env name = found (lookup_env name)

-- What `os.ReadFile` answers.
pub data FileRead : Type 0 where
  no_file unreadable : FileRead
  holds : Text → FileRead

-- `Provider` of the files.
pub record FileProvider : Type 0 where
  pub trim : Bool

unfoldable pub new_file_provider : FileProvider
new_file_provider = record { trim = true }

pub read_secret : FileProvider → FileRead → Result SecretError Text
read_secret p no_file = err secret_not_found
read_secret p unreadable = err reading_file
read_secret p (holds val) =
    let val' = if p.trim then trim_space val else val in
    if is_empty val' then err secret_empty else ok val'

-- `Get` of the files.
unfoldable pub file_get : (Text → FileRead) → FileProvider → Provider
unfolding read_secret
file_get read p name = read_secret p (read name)
