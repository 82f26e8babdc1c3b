-- ===== src/Auth/Env.antt =====
-- The environment of modules/auth/src/cmd/api/main.go
use micro_services.Base.{String, Option, none, some, ◌<>◌, ◌==◌, string_eq, if◌then◌else◌}
use micro_services.Errors.{Error, plain}

abbrev pub env_db_url : String
env_db_url = "DB_URL"

abbrev pub env_cache_addr : String
env_cache_addr = "CACHE_ADDR"

abbrev pub env_cache_prefix : String
env_cache_prefix = "CACHE_PREFIX"

pub record Env : Type 0 where
  pub db_url : String
  pub cache_addr : String
  pub cache_prefix : String

abbrev pub new_env : (getenv : String → String) → Env
new_env getenv = record {
  db_url = getenv env_db_url;
  cache_addr = getenv env_cache_addr;
  cache_prefix = getenv env_cache_prefix;
}

abbrev empty_env : String → Option Error
empty_env name = some (plain ("empty env " <> name))

unfoldable pub validate_env : Env → Option Error
validate_env e =
    if e.db_url == ""
    then empty_env env_db_url
    else if e.cache_addr == ""
    then empty_env env_cache_addr
    else if e.cache_prefix == ""
    then empty_env env_cache_prefix
    else none
