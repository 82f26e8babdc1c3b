-- ===== src/Cache.antt =====
-- modules/shared/src/utilcache: a prefixed cache over a Redis client.
pub mod Server
pub mod Keys
pub mod Laws
pub mod Model
pub mod Refinement
pub mod Sharing
mod Tests
use micro_services.Base.{ℕ, String, Option, none, some, ◌<>◌}
use micro_services.Errors.{Error, Result, ok, err}
use micro_services.Cache.Server.{Redis}

-- The client is shared by reference: its state is the server's, which each operation is given.
pub record Cache (R : Redis) : Type 0 where
  pub client : R.Client
  pub prefix : String
  pub ttl : ℕ

-- fmt.Sprintf("%s-%s", prefix, key)
unfoldable pub make_key : String → String → String
make_key prefix key = prefix <> "-" <> key

module _ (R : Redis) where
  -- NewClient, with the Ping's error.
  unfoldable pub new_client : (addr pass : String) → R.State → Result R.Client
  new_client addr pass s =
      let rds = R.new_client addr pass 0 in elim (R.ping rds s) [ none ↦ ok rds | some e ↦ err e ]

  unfoldable pub new_cache : R.Client → String → ℕ → Cache R
  new_cache client prefix ttl = record { client = client; prefix = prefix; ttl = ttl }

  unfoldable pub set : Cache R → String → R.Any → R.State → Option Error × R.State
  set c key value = R.set c.client (make_key c.prefix key) value c.ttl

  unfoldable pub get : Cache R → String → R.State → Result R.Any
  get c key s = R.scan (R.get c.client (make_key c.prefix key) s)

  unfoldable pub delete : Cache R → String → R.State → Option Error × R.State
  delete c key = R.del c.client (make_key c.prefix key)
