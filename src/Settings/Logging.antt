-- ===== src/Settings/Logging.antt =====
-- config/logging.go
use certplane.Base.{not, List, [], ◌∷◌, ◌++◌}
use certplane.Base.Text.{Text, codes, elem}
use certplane.Settings.{check, default_text}

pub record LoggingConfig : Type 0 where
  pub level : Text
  pub format : Text
  pub destination : Text

pub data LoggingError : Type 0 where
  unknown_level unknown_format unknown_destination : LoggingError

-- `ApplyDefaults`
unfoldable pub apply_logging_defaults : Text → Text → Text → LoggingConfig → LoggingConfig
apply_logging_defaults level format destination c = record {
  level = default_text c.level level;
  format = default_text c.format format;
  destination = default_text c.destination destination;
}

abbrev pub levels : List Text
levels = codes "debug" ∷ codes "info" ∷ codes "warn" ∷ codes "error" ∷ []

-- `Validate`
unfoldable pub validate_logging : LoggingConfig → List LoggingError
validate_logging c =
    check (not (elem c.level levels)) unknown_level
    ++ check (not (elem c.format (codes "text" ∷ codes "json" ∷ []))) unknown_format
    ++ check (not (elem c.destination (codes "stdout" ∷ codes "stderr" ∷ []))) unknown_destination
