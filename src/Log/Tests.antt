-- ===== src/Log/Tests.antt =====
-- The log of a service at concrete data.
use micro_services.Base.{ℕ, String, true, ◌≡◌, refl, List, [], ◌∷◌, leb}
use micro_services.Grpc.{Level, info, warn, error, text, LogRecord}
use micro_services.Log.{Slog, IsJson, new_logger, written, written-new_logger}

abbrev Stream : Type 0
Stream = String

-- Severities with the distance from debug, and handlers as their writers with their levels.
abbrev severity : Level → ℕ
severity info = 4
severity warn = 8
severity error = 12

abbrev msg_only : LogRecord → String
msg_only r = r.msg

abbrev slog : Slog
slog = record {
  Severity = ℕ;
  Writer = Stream;
  Handler = Stream × ℕ;
  Logger = Stream × ℕ;
  Line = String;
  level_debug = 0;
  level_of = severity;
  at_least = leb;
  new_json_handler = λ w least. (w, least);
  new = λ h. h;
  enabled = λ h s. leb h.1 s;
  handle = λ h r. (h.0, msg_only r);
  handler = λ l. l;
  stdout = "stdout";
}

slog-IsJson : IsJson slog msg_only
slog-IsJson = record {
  handler-new = λ h. refl;
  enabled-json = λ w least s. refl;
  at_least-level_debug =
      λ l. elim l as (λ k. leb 0 (severity k) ≡ true) [ info ↦ refl | warn ↦ refl | error ↦ refl ];
  handle-json = λ w least r. refl;
}

abbrev panicked_call : List LogRecord
panicked_call =
    record { level = error; msg = "panic recovered"; attrs = ("panic", text "nil map") ∷ [] }
    ∷ record { level = info; msg = "grpc call"; attrs = [] }
    ∷ []

-- Before NewLogger only errors were written, and elsewhere.
after_new_logger :
    written slog (new_logger slog ("stderr", 12)) panicked_call
    ≡ ("stdout", "panic recovered") ∷ ("stdout", "grpc call") ∷ []
after_new_logger = written-new_logger slog msg_only slog-IsJson ("stderr", 12) panicked_call

before : written slog ("stderr", 12) panicked_call ≡ ("stderr", "panic recovered") ∷ []
unfolding written
before = refl
