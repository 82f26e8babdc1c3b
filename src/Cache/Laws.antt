-- ===== src/Cache/Laws.antt =====
-- The cache as a map from keys to values that forgets after its TTL, over any lawful server.
use mathlib.Core.Path.{subst}
use micro_services.Base.{
  ℕ, String, ◌≡◌, ◌≢◌, refl, sym, ap, inl, inr, none, ◌<>◌, <>_cancel_left, ◌<◌, ◌≤◌, ◌%◌,
}
use micro_services.Errors.{ok, err}
use micro_services.Cache.Server.{Redis, IsLawful, millisecond}
use micro_services.Cache.{Cache, make_key, set, get, delete}
use micro_services.Cache.Keys.{make_key_eq_iff}

pub make_key_injective : (p j k : String) → make_key p j ≡ make_key p k → j ≡ k
unfolding make_key
make_key_injective p j k e = <>_cancel_left "-" j k (<>_cancel_left p _ _ e)

-- The server keeps an expiration in milliseconds; a TTL of 0 would mean none.
abbrev pub IsTimed : {R : Redis} → Cache R → Type 0
IsTimed c = (0 < c.ttl) × (c.ttl % millisecond ≡ 0)

-- No prefix is the other one followed by a dash and more.
abbrev pub AreApart : String → String → Type 0
AreApart p q = (p ≢ q) × ((r : String) → q ≢ p <> "-" <> r) × ((r : String) → p ≢ q <> "-" <> r)

-- Caches whose prefixes are apart have no key in common.
pub make_keys_apart : (p q j k : String) → AreApart p q → make_key p j ≢ make_key q k
make_keys_apart p q j k (ne, no_pq, no_qp) e = elim ((make_key_eq_iff p j q k).0 e) [
  | inl (same, _) ↦ ne same
  | inr (inl (r, same, _)) ↦ no_pq r same
  | inr (inr (r, same, _)) ↦ no_qp r same
]

module _ (R : Redis) (L : IsLawful R) where
  -- After a Set that succeeds, Get of that key returns the value for as long as the TTL has not
  -- passed, and redis.Nil from then on, if nothing else is done to the server meanwhile.
  get-set :
      (c : Cache R) (key : String) (v : R.Any) (d : ℕ) (s : R.State)
      → IsTimed c
      → (set R c key v s).0 ≡ none
      → (d < c.ttl → get R c key (R.elapse d (set R c key v s).1) ≡ ok v)
        × (c.ttl ≤ d → get R c key (R.elapse d (set R c key v s).1) ≡ err R.redis_nil)
  unfolding set get
  get-set c key v d s (pos_ttl, whole) done = (
    λ h. L.scan-get-set _ _ v c.ttl d s done pos_ttl whole h,
    λ h. L.scan-get-set_expired _ _ v c.ttl d s done pos_ttl whole h,
  )

  -- Set and Delete of one key leave what Get returns for every other key of the cache as it was.
  get_other_key :
      (c : Cache R) (j k : String) (v : R.Any) (s : R.State)
      → j ≢ k
      → (get R c k (set R c j v s).1 ≡ get R c k s) × (get R c k (delete R c j s).1 ≡ get R c k s)
  unfolding set get delete
  get_other_key c j k v s h =
      let differ : make_key c.prefix j ≢ make_key c.prefix k =
        λ e. h (make_key_injective c.prefix j k e) in
      (
        ap R.scan (L.get-set_ne c.client _ _ v c.ttl s differ),
        ap R.scan (L.get-del_ne c.client _ _ s differ),
      )

  -- After a Delete that reports no error, Get of that key returns redis.Nil, whether the key was
  -- there or not.
  get-delete :
      (c : Cache R) (key : String) (s : R.State)
      → (delete R c key s).0 ≡ none
      → get R c key (delete R c key s).1 ≡ err R.redis_nil
  unfolding get delete
  get-delete c key s h = L.scan-get-del c.client _ s h

  -- Two caches on one client whose prefixes differ, and neither of whose prefixes is the other
  -- followed by a dash and more, do not see each other's writes and deletions.
  caches_apart :
      (a b : Cache R) (j k : String) (v : R.Any) (s : R.State)
      → AreApart a.prefix b.prefix
      → a.client ≡ b.client
      → (get R b k (set R a j v s).1 ≡ get R b k s) × (get R b k (delete R a j s).1 ≡ get R b k s)
  unfolding set get delete
  caches_apart a b j k v s (ne, no_ab, no_ba) same =
      let differ = make_keys_apart a.prefix b.prefix j k (ne, no_ab, no_ba) in
      (
        subst
            (λ c.
              R.scan
                (R.get b.client (make_key b.prefix k) (R.set c (make_key a.prefix j) v a.ttl s).1)
              ≡ get R b k s)
            (sym same) (ap R.scan (L.get-set_ne b.client _ _ v a.ttl s differ)),
        subst
            (λ c.
              R.scan (R.get b.client (make_key b.prefix k) (R.del c (make_key a.prefix j) s).1)
              ≡ get R b k s)
            (sym same) (ap R.scan (L.get-del_ne b.client _ _ s differ)),
      )

  -- The doc comment's claim that prefixes keep services from colliding fails for every pair of
  -- prefixes p and p-r: a value that a cache with the first prefix sets under the key r-j is what a
  -- cache on the same client with the second prefix reads under j, until the first one's TTL passes.
  pub caches_collide :
      (a b : Cache R) (r j : String) (v : R.Any) (d : ℕ) (s : R.State)
      → b.prefix ≡ a.prefix <> "-" <> r
      → a.client ≡ b.client
      → IsTimed a
      → (set R a (r <> "-" <> j) v s).0 ≡ none
      → d < a.ttl
      → get R b j (R.elapse d (set R a (r <> "-" <> j) v s).1) ≡ ok v
  unfolding set get
  caches_collide a b r j v d s split same (pos_ttl, whole) done h =
      let shared : make_key a.prefix (r <> "-" <> j) ≡ make_key b.prefix j =
        (make_key_eq_iff a.prefix (r <> "-" <> j) b.prefix j).1 (inr (inl (r, split, refl))) in
      let stored = R.elapse d (R.set a.client (make_key a.prefix (r <> "-" <> j)) v a.ttl s).1 in
      subst (λ k. R.scan (R.get b.client k stored) ≡ ok v) shared
        (subst (λ c. R.scan (R.get c (make_key a.prefix (r <> "-" <> j)) stored) ≡ ok v) same
          (L.scan-get-set a.client _ v a.ttl d s done pos_ttl whole h))
