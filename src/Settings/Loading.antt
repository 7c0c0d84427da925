-- ===== src/Settings/Loading.antt =====
-- config/load.go: reading, decoding, defaults and validation. What the file system and the YAML
-- decoder answer comes in as data.
pub mod Loaded
use certplane.Base.{Bool, List, [], ◌∷◌, Result, ok, err, ◌>>=◌, ◌≡◌, refl, arith}
use certplane.Base.Text.{Text}
use certplane.Settings.Broker.{
  BrokerConfig, BrokerConfigError, apply_broker_defaults, validate_broker,
}
use certplane.Settings.Agent.{AgentConfig, AgentConfigError, apply_agent_defaults, validate_agent}

-- A configuration file: it cannot be read, is no document of the known fields, or is decoded.
pub data ConfigFile (T : Type 0) : Type 0 where
  unreadable malformed : ConfigFile T
  decoded : T → ConfigFile T

pub data LoadError (E : Type 0) : Type 0 where
  reading parsing : LoadError E
  validating : List E → LoadError E

-- `loadYAML`
unfoldable pub load_yaml : {T E : Type 0} → ConfigFile T → Result (LoadError E) T
load_yaml unreadable = err reading
load_yaml malformed = err parsing
load_yaml (decoded cfg) = ok cfg

-- A configuration with the joined errors of its validation.
validated : {T E : Type 0} → List E → T → Result (LoadError E) T
validated [] cfg = ok cfg
validated (e ∷ es) cfg = err (validating (e ∷ es))

unfoldable pub load_agent :
    (Text → Bool)
    → (Text → Text)
    → ConfigFile AgentConfig
    → Result (LoadError AgentConfigError) AgentConfig
unfolding load_yaml validated
load_agent parses clean file = do
  cfg ← load_yaml file
  validated (validate_agent parses clean (apply_agent_defaults cfg)) (apply_agent_defaults cfg)

unfoldable pub load_broker :
    (Text → Bool) → ConfigFile BrokerConfig → Result (LoadError BrokerConfigError) BrokerConfig
unfolding load_yaml validated
load_broker parses file = do
  cfg ← load_yaml file
  validated (validate_broker parses (apply_broker_defaults cfg)) (apply_broker_defaults cfg)
