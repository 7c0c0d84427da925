-- ===== src/Secrets/Filled.antt =====
-- What the providers hand out is never empty.
use certplane.Base.{
  false, ◌≡◌, refl, sym, ap, ◌∙◌, inl, inr, Option, none, some, ◌∷◌, [], ok, err, if◌then◌else◌,
  Bool-cases, Result-cases, ok-injective,
}
use certplane.Base.Text.{Text, is_empty, trim_space}
use certplane.Base.Dict.{lookup}
use certplane.Secrets.{
  SecretError, Provider, FileRead, no_file, unreadable, holds, FileProvider, env_get, found,
  read_secret, file_get,
}
use certplane.Secrets.Vault.{
  VaultServer, VaultProvider, trim_slashes, read_vault, string_value, vault_get,
}

-- The contract of a provider: a secret that is handed out is not empty.
abbrev pub IsFilled : Provider → Type 0
IsFilled get = (name val : Text) → get name ≡ ok val → is_empty val ≡ false

-- A text that passes the test is handed out as it is.
guarded :
    (e : SecretError) (t val : Text)
    → (if is_empty t then err e else ok t) ≡ ok val
    → is_empty val ≡ false
guarded e [] val h = absurd (cc h)
guarded e (c ∷ t) val h = rw (← ok-injective h) refl

found-filled : (v : Option Text) (val : Text) → found v ≡ ok val → is_empty val ≡ false
unfolding found
found-filled none val h = absurd (cc h)
found-filled (some t) val h = guarded _ t val h

read_secret-filled :
    (p : FileProvider) (r : FileRead) (val : Text) → read_secret p r ≡ ok val → is_empty val ≡ false
unfolding read_secret
read_secret-filled p no_file val h = absurd (cc h)
read_secret-filled p unreadable val h = absurd (cc h)
read_secret-filled p (holds t) val h = guarded _ (if p.trim then trim_space t else t) val h

vault_get-filled :
    (s : VaultServer) (p : VaultProvider) (name val : Text)
    → vault_get s p name ≡ ok val
    → is_empty val ≡ false
unfolding vault_get
vault_get-filled s p name val h =
    let path = trim_slashes (trim_space name) in
    elim (Bool-cases (is_empty path)) [
      | inl e ↦ absurd (cc (rw e at h))
      | inr e ↦ elim (Result-cases (read_vault s p path)) [
        | inr (x, r) ↦ absurd (cc (rw (e, r) at h))
        | inl (fields, r) ↦ elim (Result-cases (string_value (lookup p.cfg.key fields))) [
          | inr (x, v) ↦ absurd (cc (rw (e, r, v) at h))
          | inl (t, v) ↦ elim (Bool-cases (is_empty (trim_space t))) [
            | inl n ↦ absurd (cc (rw (e, r, v, n) at h))
            | inr n ↦ ap is_empty (sym (ok-injective (rw (e, r, v, n) at h))) ∙ n
          ]
        ]
      ]
    ]

-- Whatever the environment, the files and the server of Vault answer, none of the three providers hands
-- out an empty secret.
pub get-IsFilled :
    (lookup_env : Text → Option Text) (read : Text → FileRead) (f : FileProvider) (s : VaultServer)
    (p : VaultProvider)
    → IsFilled (env_get lookup_env) × (IsFilled (file_get read f) × IsFilled (vault_get s p))
unfolding env_get file_get
get-IsFilled lookup_env read f s p = (
  λ name val h. found-filled (lookup_env name) val h,
  (λ name val h. read_secret-filled f (read name) val h, vault_get-filled s p),
)
