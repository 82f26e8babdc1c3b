-- ===== src/Cache/Model.antt =====
-- The abstract cache: a map from keys to values with the time that each has left.
use micro_services.Base.{
  ℕ, String, ◌≡◌, ◌≢◌, ◌<◌, ◌%◌, ◌-◌, Option, none, some, List, [], ◌∷◌, leb, ◌==◌, string_eq,
  if◌then◌else◌,
}
use micro_services.Errors.{ok, err}
use micro_services.Cache.Server.{Redis, millisecond}

pub data Op (V : Type 0) : Type 0 where
  set_op : String → V → Op V
  delete_op : String → Op V
  wait : ℕ → Op V

module _ {V : Type 0} where
  -- What is left of an entry when time has passed.
  abbrev pub aged : ℕ → Option (V × ℕ) → Option (V × ℕ)
  aged d none = none
  aged d (some (v, left)) = if leb left d then none else some (v, left - d)

  abbrev pub put : String → Option (V × ℕ) → (String → Option (V × ℕ)) → String → Option (V × ℕ)
  put k e m j = if j == k then e else m j

  -- An operation on a cache with this TTL.
  abbrev pub apply : ℕ → Op V → (String → Option (V × ℕ)) → String → Option (V × ℕ)
  apply ttl (set_op k v) m j = put k (some (v, ttl)) m j
  apply ttl (delete_op k) m j = put k none m j
  apply ttl (wait d) m j = aged d (m j)

  abbrev pub apply_all : ℕ → List (Op V) → (String → Option (V × ℕ)) → String → Option (V × ℕ)
  apply_all ttl [] m = m
  apply_all ttl (o ∷ os) m = apply_all ttl os (apply ttl o m)

-- A server on which each key has a value and the time that is left of it, or none.
pub record IsStore (R : Redis) : Type 0 where
  pub live : R.Client → String → R.State → Option (R.Any × ℕ)
  pub scan-get_some :
      (c : R.Client) (k : String) (s : R.State) (v : R.Any) (left : ℕ)
      → live c k s ≡ some (v, left)
      → R.scan (R.get c k s) ≡ ok v
  pub scan-get_none :
      (c : R.Client) (k : String) (s : R.State)
      → live c k s ≡ none
      → R.scan (R.get c k s) ≡ err R.redis_nil
  pub live-elapse :
      (c : R.Client) (k : String) (d : ℕ) (s : R.State)
      → live c k (R.elapse d s) ≡ aged d (live c k s)
  pub live-set :
      (c : R.Client) (k : String) (v : R.Any) (ttl : ℕ) (s : R.State)
      → (R.set c k v ttl s).0 ≡ none
      → 0 < ttl
      → ttl % millisecond ≡ 0
      → live c k (R.set c k v ttl s).1 ≡ some (v, ttl)
  pub live-set_ne :
      (c : R.Client) (j k : String) (v : R.Any) (ttl : ℕ) (s : R.State)
      → j ≢ k
      → live c k (R.set c j v ttl s).1 ≡ live c k s
  pub live-del :
      (c : R.Client) (k : String) (s : R.State)
      → (R.del c k s).0 ≡ none
      → live c k (R.del c k s).1 ≡ none
  pub live-del_ne :
      (c : R.Client) (j k : String) (s : R.State) → j ≢ k → live c k (R.del c j s).1 ≡ live c k s
