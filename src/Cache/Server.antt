-- ===== src/Cache/Server.antt =====
-- github.com/redis/go-redis, as utilcache uses it: a parameter, with what its documentation and that
-- of Redis promise. Durations are in nanoseconds.
use micro_services.Base.{ℕ, String, ◌≡◌, ◌≢◌, ◌<◌, ◌≤◌, ◌%◌, Option, none}
use micro_services.Errors.{Error, Result, ok, err}

pub record Redis : Type 1 where
  -- The server with its clock; `elapse` lets time pass.
  pub State : Type 0
  pub elapse : ℕ → State → State
  -- What `any` holds, and the result of a command.
  pub Any : Type 0
  pub Reply : Type 0
  -- A client, by its options; Ping fails where the server cannot be reached.
  pub Client : Type 0
  pub new_client : (addr password : String) (db : ℕ) → Client
  pub ping : Client → State → Option Error
  pub set : Client → String → Any → ℕ → State → Option Error × State
  pub get : Client → String → State → Reply
  pub scan : Reply → Result Any
  pub del : Client → String → State → Option Error × State
  -- redis.Nil
  pub redis_nil : Error

-- A millisecond, the unit in which Redis keeps an expiration.
abbrev pub millisecond : ℕ
millisecond = 1000000

pub record IsLawful (R : Redis) : Type 0 where
  pub scan-get-set :
      (c : R.Client) (k : String) (v : R.Any) (ttl d : ℕ) (s : R.State)
      → (R.set c k v ttl s).0 ≡ none
      → 0 < ttl
      → ttl % millisecond ≡ 0
      → d < ttl
      → R.scan (R.get c k (R.elapse d (R.set c k v ttl s).1)) ≡ ok v
  pub scan-get-set_expired :
      (c : R.Client) (k : String) (v : R.Any) (ttl d : ℕ) (s : R.State)
      → (R.set c k v ttl s).0 ≡ none
      → 0 < ttl
      → ttl % millisecond ≡ 0
      → ttl ≤ d
      → R.scan (R.get c k (R.elapse d (R.set c k v ttl s).1)) ≡ err R.redis_nil
  pub get-set_ne :
      (c : R.Client) (j k : String) (v : R.Any) (ttl : ℕ) (s : R.State)
      → j ≢ k
      → R.get c k (R.set c j v ttl s).1 ≡ R.get c k s
  pub scan-get-del :
      (c : R.Client) (k : String) (s : R.State)
      → (R.del c k s).0 ≡ none
      → R.scan (R.get c k (R.del c k s).1) ≡ err R.redis_nil
  pub get-del_ne :
      (c : R.Client) (j k : String) (s : R.State) → j ≢ k → R.get c k (R.del c j s).1 ≡ R.get c k s
