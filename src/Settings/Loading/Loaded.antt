-- ===== src/Settings/Loading/Loaded.antt =====
-- What the programs start with: a configuration that was loaded has passed its validation.
use certplane.Base.{
  ℕ, Bool, true, false, arith, ◌≡◌, refl, List, [], ◌∷◌, map, ok, ok-injective, All, length, ◌==◌,
}
use certplane.Base.Int.{ℤ, pos, negsuc, ltb_ℤ}
use certplane.Base.Text.{Text}
use certplane.Settings.{default_int}
use certplane.Base.Sort.{IsDistinct}
use certplane.Settings.Broker.{BrokerConfig, apply_broker_defaults, validate_broker}
use certplane.Settings.Broker.Usable
use certplane.Settings.Broker.Usable.{validate_broker-IsUsable}
use certplane.Settings.Agent.{AgentConfig, apply_agent_defaults}
use certplane.Settings.Agent.Usable.{name_of, validate_agent-IsUsable}
use certplane.Settings.Agent.Usable as AgentUsable
use certplane.Settings.Loading.{
  ConfigFile, unreadable, malformed, decoded, load_yaml, validated, load_agent, load_broker,
}

validated-ok :
    {T E : Type 0} (es : List E) (cfg cfg' : T)
    → validated es cfg ≡ ok cfg'
    → (es ≡ []) × (cfg ≡ cfg')
unfolding validated
validated-ok [] cfg cfg' h = (refl, ok-injective h)
validated-ok (e ∷ es) cfg cfg' h = cc

-- A broker that loads a configuration has a usable one: what `IsUsable` asks of its server, policy, ACME
-- issuer, provider of secrets, store, audit log, limits and logging holds, whatever the file says.
pub load_broker-IsUsable :
    (parses : Text → Bool) (file : ConfigFile BrokerConfig) (cfg : BrokerConfig)
    → load_broker parses file ≡ ok cfg
    → Usable.IsUsable parses cfg
unfolding load_broker load_yaml
load_broker-IsUsable parses unreadable cfg h = cc
load_broker-IsUsable parses malformed cfg h = cc
load_broker-IsUsable parses (decoded c) cfg h =
    let (valid, same) = validated-ok _ _ cfg h in
    rw (← same) (validate_broker-IsUsable parses (apply_broker_defaults c) valid)

-- An agent that loads a configuration has at least one certificate to look after, all of them are
-- usable, and no two have one name.
pub load_agent-IsUsable :
    (parses : Text → Bool) (clean : Text → Text) (file : ConfigFile AgentConfig) (cfg : AgentConfig)
    → load_agent parses clean file ≡ ok cfg
    → ((length cfg.certificates == 0) ≡ false)
      × (All (AgentUsable.IsUsable clean) cfg.certificates
          × IsDistinct (map name_of cfg.certificates))
unfolding load_agent load_yaml
load_agent-IsUsable parses clean unreadable cfg h = cc
load_agent-IsUsable parses clean malformed cfg h = cc
load_agent-IsUsable parses clean (decoded c) cfg h =
    let (valid, same) = validated-ok _ _ cfg h in
    rw (← same) (validate_agent-IsUsable parses clean (apply_agent_defaults c) valid)

default_int-positive :
    (x : ℤ) (n : ℕ)
    → ltb_ℤ (pos 0) (pos n) ≡ true
    → ltb_ℤ (default_int x (pos n)) (pos 0) ≡ false
    → ltb_ℤ (pos 0) (default_int x (pos n)) ≡ true
default_int-positive (pos m) n filled h = ground arith
default_int-positive (negsuc m) n filled h = ground arith

-- The two limits.
abbrev pub Limits : BrokerConfig → Type 0
Limits c =
    (ltb_ℤ (pos 0) c.rate_limits.per_identity_per_hour ≡ true)
    × (ltb_ℤ (pos 0) c.rate_limits.per_identity_profile_per_hour ≡ true)

defaults-Limits :
    (parses : Text → Bool) (c : BrokerConfig)
    → validate_broker parses (apply_broker_defaults c) ≡ []
    → Limits (apply_broker_defaults c)
unfolding apply_broker_defaults
defaults-Limits parses c valid =
    let u = validate_broker-IsUsable parses (apply_broker_defaults c) valid in
    (
      default_int-positive c.rate_limits.per_identity_per_hour 50 refl u.per_identity,
      default_int-positive c.rate_limits.per_identity_profile_per_hour 20 refl
          u.per_identity_profile,
    )

-- A broker that loads a configuration has two positive limits, whatever the file says: a limit of
-- zero, which would switch the limiter off, cannot be configured.
pub load_broker-Limits :
    (parses : Text → Bool) (file : ConfigFile BrokerConfig) (cfg : BrokerConfig)
    → load_broker parses file ≡ ok cfg
    → Limits cfg
unfolding load_broker load_yaml
load_broker-Limits parses unreadable cfg h = cc
load_broker-Limits parses malformed cfg h = cc
load_broker-Limits parses (decoded c) cfg h =
    let (valid, same) = validated-ok _ _ cfg h in rw (← same) (defaults-Limits parses c valid)
