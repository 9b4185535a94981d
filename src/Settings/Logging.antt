-- ===== src/Settings/Logging.antt =====
-- internal/config/config.go: slogLevel and Handler, and the logger of internal/server/logger.go.
use k8s_mtp.Common.{
  false, Bool-cases, String, Bool, true, Option, none, some, List, [], ◌∷◌, ◌==◌, ◌≡◌, inl, inr,
  refl, if◌then◌else◌,
}
use k8s_mtp.Settings.{Config}
use k8s_mtp.Settings.Usable.{IsLevel}
use k8s_mtp.Settings.Load.{System, loaded, load}
use k8s_mtp.Settings.Sources.{load-IsUsable}

pub data Level : Type 0 where
  level_debug level_info level_warn level_error : Level

-- `slog.NewJSONHandler` or `slog.NewTextHandler` on the standard output, with its options and group.
pub record SlogHandler : Type 0 where
  pub is_json : Bool
  pub add_source : Bool
  pub level : Level
  pub group : String

-- The handler, and the attributes of `With`.
pub record Logger : Type 0 where
  pub handler : SlogHandler
  pub attributes : List (String × String)

-- `strings.ToLower` is a parameter.
module _ (to_lower : String → String) where
  unfoldable pub slog_level : Config → Level
  slog_level c =
      if to_lower c.log_level == "debug"
      then level_debug
      else if to_lower c.log_level == "warn"
      then level_warn
      else if to_lower c.log_level == "error"
      then level_error
      else level_info

  unfoldable pub slog_handler : Config → SlogHandler
  unfolding slog_level
  slog_handler c =
      if c.log_format == "json"
      then record { is_json = true; add_source = true; level = slog_level c; group = "app" }
      else record { is_json = false; add_source = true; level = slog_level c; group = "app" }

  -- `Init`, which makes the logger of the process.
  unfoldable pub init_logger : Config → Logger
  unfolding slog_handler
  init_logger cfg = record { handler = slog_handler cfg; attributes = [] }

  -- `WithContext`, with the id of the request in the context, a text, if there is one.
  unfoldable pub with_context : Logger → Option String → Logger
  with_context logger none = logger
  with_context logger (some id) = record logger {
    attributes = ("request_id", id) ∷ logger.attributes;
  }

  abbrev named : Level → String
  named level_debug = "debug"
  named level_info = "info"
  named level_warn = "warn"
  named level_error = "error"

  slog_level-named :
      (c : Config)
      → to_lower c.log_level ≡ c.log_level
      → IsLevel c.log_level
      → named (slog_level c) ≡ c.log_level
  unfolding slog_level
  slog_level-named c h (inl e) = rw (h, e, slog_level) refl
  slog_level-named c h (inr (inl e)) = rw (h, e, slog_level) refl
  slog_level-named c h (inr (inr (inl e))) = rw (h, e, slog_level) refl
  slog_level-named c h (inr (inr (inr e))) = rw (h, e, slog_level) refl

  -- What `strings.ToLower` does to a text of lower-case letters.
  record IsLowering : Type 0 where
    keeps : (text : String) → IsLevel text → to_lower text ≡ text

  -- A configuration that was loaded has a logger of the level that it names, and of its format.
  load-init_logger :
      (v : IsLowering) (sys : System) (file : String) (c : Config)
      → load sys file ≡ loaded c
      → (named (init_logger c).handler.level ≡ c.log_level)
        × ((init_logger c).handler.is_json ≡ (c.log_format == "json"))
  unfolding init_logger slog_handler
  load-init_logger v sys file c e =
      let u = load-IsUsable sys file c e in
      elim (Bool-cases (c.log_format == "json")) [
        | inl f ↦
            rw (f, slog_handler) (slog_level-named c (v.keeps c.log_level u.level) u.level, refl)
        | inr f ↦
            rw (f, slog_handler) (slog_level-named c (v.keeps c.log_level u.level) u.level, refl)
      ]
