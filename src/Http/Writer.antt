-- ===== src/Http/Writer.antt =====
-- net/http's ResponseWriter, as modules/shared/src/utilhttp/response.go uses it. The statuses that
-- the program sends are 200 and above, so the first WriteHeader is the final one.
use micro_services.Base.{
  ℕ, suc, String, Option, none, some, List, [], ◌∷◌, ◌<>◌, ◌==◌, string_eq, if◌then◌else◌,
}

abbrev pub Header : Type 0
Header = List (String × String)

-- Header().Set: one value for a key; the key is written in its canonical form already.
unfoldable pub header_set : String → String → Header → Header
header_set k v [] = (k, v) ∷ []
header_set k v ((j, u) ∷ h) = if j == k then (k, v) ∷ h else (j, u) ∷ header_set k v h

unfoldable pub header_get : String → Header → Option String
header_get k [] = none
header_get k ((j, u) ∷ h) = if j == k then some u else header_get k h

-- `header` is the map that Header() gives; `status` and `sent` are what went out with the first
-- WriteHeader; `superfluous` counts the later calls, which the server logs and drops.
pub record ResponseWriter : Type 0 where
  pub header : Header
  pub status : Option ℕ
  pub sent : Header
  pub body : String
  pub superfluous : ℕ

abbrev pub new_writer : ResponseWriter
new_writer = record { header = []; status = none; sent = []; body = ""; superfluous = 0 }

abbrev pub set_header : String → String → ResponseWriter → ResponseWriter
set_header k v w = record w { header = header_set k v w.header }

abbrev status_line : Option ℕ → ℕ → ResponseWriter → ResponseWriter
status_line none code w = record w { status = some code; sent = w.header }
status_line (some _) code w = record w { superfluous = suc w.superfluous }

unfoldable pub write_header : ℕ → ResponseWriter → ResponseWriter
write_header code w = status_line w.status code w

-- Write sends the status 200 first where none was sent.
abbrev implicit_ok : Option ℕ → ResponseWriter → ResponseWriter
implicit_ok none w = record w { status = some 200; sent = w.header }
implicit_ok (some _) w = w

unfoldable pub write : String → ResponseWriter → ResponseWriter
write s w = let w' = implicit_ok w.status w in record w' { body = w'.body <> s }

unfoldable pub write_all : List String → ResponseWriter → ResponseWriter
unfolding write
write_all [] w = w
write_all (s ∷ ss) w = write_all ss (write s w)
