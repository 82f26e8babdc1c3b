-- ===== src/Log.antt =====
-- modules/shared/src/utillog/log.go, with what slog's default logger writes of a log. The package
-- log/slog is a parameter, with what its documentation promises of the JSON handler.
mod Tests
use micro_services.Base.{
  Bool, true, false, ◌≡◌, refl, sym, ap, ◌∙◌, List, [], ◌∷◌, ◌++◌, map, if◌then◌else◌, arith,
}
use micro_services.Grpc.{Level, info, warn, error, LogRecord}

pub record Slog : Type 1 where
  pub Severity : Type 0
  pub Writer : Type 0
  pub Handler : Type 0
  pub Logger : Type 0
  -- A line of output without its end.
  pub Line : Type 0
  pub level_debug : Severity
  pub level_of : Level → Severity
  -- Whether the second severity is at least the first one.
  pub at_least : Severity → Severity → Bool
  pub new_json_handler : Writer → (level : Severity) → Handler
  pub new : Handler → Logger
  -- What Logger.Log of a logger with this handler writes of a record, and where.
  pub enabled : Handler → Severity → Bool
  pub handle : Handler → LogRecord → Writer × Line
  pub handler : Logger → Handler
  pub stdout : Writer

module _ (S : Slog) where
  -- NewLogger: the default logger before it and after it.
  unfoldable pub new_logger : S.Logger → S.Logger
  new_logger previous = S.new (S.new_json_handler S.stdout S.level_debug)

  -- What slog.Info, slog.Error and the like write of the records, one after the other.
  unfoldable pub written : S.Logger → List LogRecord → List (S.Writer × S.Line)
  written l [] = []
  written l (r ∷ rs) =
      let rest = written l rs in
      if S.enabled (S.handler l) (S.level_of r.level) then S.handle (S.handler l) r ∷ rest else rest

  -- The JSON handler takes the records from its level up, and writes each as one line.
  pub record IsJson (json : LogRecord → S.Line) : Type 0 where
    pub handler-new : (h : S.Handler) → S.handler (S.new h) ≡ h
    pub enabled-json :
        (w : S.Writer) (least s : S.Severity)
        → S.enabled (S.new_json_handler w least) s ≡ S.at_least least s
    pub at_least-level_debug : (l : Level) → S.at_least S.level_debug (S.level_of l) ≡ true
    pub handle-json :
        (w : S.Writer) (least : S.Severity) (r : LogRecord)
        → S.handle (S.new_json_handler w least) r ≡ (w, json r)

  module _ (json : LogRecord → S.Line) (J : IsJson json) where
    -- After NewLogger, whatever logger was there before, each record that the services log is written
    -- to standard output as one line of JSON, in order: none is dropped for its level.
    pub written-new_logger :
        (previous : S.Logger) (rs : List LogRecord)
        → written (new_logger previous) rs ≡ map (λ r. (S.stdout, json r)) rs
    unfolding written new_logger
    written-new_logger previous [] = refl
    written-new_logger previous (r ∷ rs) =
        rw
          (
            J.handler-new (S.new_json_handler S.stdout S.level_debug),
            J.enabled-json S.stdout S.level_debug (S.level_of r.level),
            J.at_least-level_debug r.level,
            J.handle-json S.stdout S.level_debug r,
          )
          (ap (λ rest. (S.stdout, json r) ∷ rest) (written-new_logger previous rs))
