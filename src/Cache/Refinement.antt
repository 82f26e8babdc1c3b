-- ===== src/Cache/Refinement.antt =====
-- The cache against the abstract one, over every sequence of operations.
use micro_services.Base.{
  ℕ, String, ◌≡◌, ◌≢◌, sym, ap, ◌∙◌, Option, Option-cases, none, some, inl, inr, List, [], ◌∷◌,
  Bool-cases, ◌==◌, ==_iff, string_eq, arith, false,
}
use micro_services.Errors.{Error, Result, ok, err}
use micro_services.Cache.Server.{Redis}
use micro_services.Cache.{Cache, make_key, set, get, delete}
use micro_services.Cache.Laws.{IsTimed, make_key_injective}
use micro_services.Cache.Model.{aged, Op, set_op, delete_op, wait, apply, apply_all, IsStore}

-- What a Get returns for an entry of the abstract cache.
abbrev pub shown : {V : Type 0} → Error → Option (V × ℕ) → Result V
shown missing none = err missing
shown missing (some (v, left)) = ok v

module _ (R : Redis) (c : Cache R) where
  -- The operation on the server, and time.
  abbrev pub perform : Op R.Any → R.State → Option Error × R.State
  perform (set_op k v) s = set R c k v s
  perform (delete_op k) s = delete R c k s
  perform (wait d) s = (none, R.elapse d s)

  -- No operation of the sequence reports an error.
  abbrev pub Succeed : List (Op R.Any) → R.State → Type 0
  Succeed [] s = Unit
  Succeed (o ∷ os) s = ((perform o s).0 ≡ none) × Succeed os (perform o s).1

  abbrev pub perform_all : List (Op R.Any) → R.State → R.State
  perform_all [] s = s
  perform_all (o ∷ os) s = perform_all os (perform o s).1

  module _ (L : IsStore R) where
    -- The server holds the abstract cache under the cache's prefix.
    abbrev pub Represents : (String → Option (R.Any × ℕ)) → R.State → Type 0
    Represents m s = (k : String) → L.live c.client (make_key c.prefix k) s ≡ m k

    differ : (j k : String) → (j == k) ≡ false → make_key c.prefix k ≢ make_key c.prefix j
    differ j k h e = ground (arith, h, ==_iff j k, make_key_injective c.prefix k j e)

    pub Represents-perform :
        (o : Op R.Any) (m : String → Option (R.Any × ℕ)) (s : R.State)
        → IsTimed c
        → Represents m s
        → (perform o s).0 ≡ none
        → Represents (apply c.ttl o m) (perform o s).1
    unfolding set delete
    Represents-perform (wait d) m s timed rep done j =
        L.live-elapse c.client _ d s ∙ ap (aged d) (rep j)
    Represents-perform (delete_op k) m s timed rep done j = elim (Bool-cases (j == k)) [
      | inl same ↦ rw same (
          ap (λ i. L.live c.client (make_key c.prefix i) (delete R c k s).1) ((==_iff j k).0 same)
          ∙ L.live-del c.client _ s done)
      | inr other ↦ rw other (L.live-del_ne c.client _ _ s (differ j k other) ∙ rep j)
    ]
    Represents-perform (set_op k v) m s (pos_ttl, whole) rep done j = elim (Bool-cases (j == k)) [
      | inl same ↦ rw same (
          ap (λ i. L.live c.client (make_key c.prefix i) (set R c k v s).1) ((==_iff j k).0 same)
          ∙ L.live-set c.client _ v c.ttl s done pos_ttl whole)
      | inr other ↦ rw other (L.live-set_ne c.client _ _ v c.ttl s (differ j k other) ∙ rep j)
    ]

    Represents-perform_all :
        (os : List (Op R.Any)) (m : String → Option (R.Any × ℕ)) (s : R.State)
        → IsTimed c
        → Represents m s
        → Succeed os s
        → Represents (apply_all c.ttl os m) (perform_all os s)
    Represents-perform_all [] m s timed rep done = rep
    Represents-perform_all (o ∷ os) m s timed rep (now, later) =
        Represents-perform_all os (apply c.ttl o m) (perform o s).1 timed
          (Represents-perform o m s timed rep now) later

    -- For a cache whose TTL is a positive number of whole milliseconds: from every state that holds
    -- the abstract cache m, after any sequence of Set, Delete and waiting that reports no error, Get
    -- of every key returns what the abstract cache has left under it, or redis.Nil where it has
    -- nothing.
    pub get-eq-shown :
        (os : List (Op R.Any)) (m : String → Option (R.Any × ℕ)) (s : R.State) (key : String)
        → IsTimed c
        → Represents m s
        → Succeed os s
        → get R c key (perform_all os s) ≡ shown R.redis_nil (apply_all c.ttl os m key)
    unfolding get
    get-eq-shown os m s key timed rep done =
        let held = Represents-perform_all os m s timed rep done key in
        elim (Option-cases (apply_all c.ttl os m key)) [
          | inl gone ↦
              L.scan-get_none c.client _ _ (held ∙ gone) ∙ ap (shown R.redis_nil) (sym gone)
          | inr ((v, left), there) ↦
              L.scan-get_some c.client _ _ v left (held ∙ there)
              ∙ ap (shown R.redis_nil) (sym there)
        ]
