-- ===== src/Cache/Sharing.antt =====
-- Two caches that share a client, over every interleaving of their operations.
use micro_services.Base.{ℕ, String, ◌≡◌, refl, ◌∙◌, none, Option, List, [], ◌∷◌, inl, inr, ◌⊎◌}
use micro_services.Errors.{Error}
use micro_services.Cache.Server.{Redis}
use micro_services.Cache.{Cache, set, get, delete}
use micro_services.Cache.Laws.{IsTimed, AreApart, make_keys_apart}
use micro_services.Cache.Model.{Op, set_op, delete_op, wait, apply_all, IsStore}
use micro_services.Cache.Refinement.{perform, Represents, Represents-perform, shown, get-eq-shown}

-- An operation of the first cache or of the second one.
abbrev pub Turn : Type 0 → Type 0
Turn V = Op V ⊎ Op V

-- What the first cache has done, with the time that passed.
abbrev pub firsts : {V : Type 0} → List (Turn V) → List (Op V)
firsts [] = []
firsts (inl o ∷ ts) = o ∷ firsts ts
firsts (inr (wait d) ∷ ts) = wait d ∷ firsts ts
firsts (inr (set_op k v) ∷ ts) = firsts ts
firsts (inr (delete_op k) ∷ ts) = firsts ts

module _ (R : Redis) (rds : R.Client) (p q : String) (ttl ttl' : ℕ) where
  abbrev pub first : Cache R
  first = record { client = rds; prefix = p; ttl = ttl }

  abbrev pub second : Cache R
  second = record { client = rds; prefix = q; ttl = ttl' }

  abbrev pub turn : Turn R.Any → R.State → Option Error × R.State
  turn (inl o) = perform R first o
  turn (inr o) = perform R second o

  abbrev pub Quiet : List (Turn R.Any) → R.State → Type 0
  Quiet [] s = Unit
  Quiet (t ∷ ts) s = ((turn t s).0 ≡ none) × Quiet ts (turn t s).1

  abbrev pub turns : List (Turn R.Any) → R.State → R.State
  turns [] s = s
  turns (t ∷ ts) s = turns ts (turn t s).1

  module _ (L : IsStore R) (apart : AreApart q p) (timed : IsTimed first) where
    -- A write or a deletion of the second cache.
    Represents-second :
        (o : Op R.Any) (m : String → Option (R.Any × ℕ)) (s : R.State)
        → Represents R first L m s
        → Represents R first L (apply_all ttl (firsts (inr o ∷ [])) m) (perform R second o s).1
    unfolding set delete
    Represents-second (wait d) m s rep k =
        Represents-perform R first L (wait d) m s timed rep refl k
    Represents-second (set_op j v) m s rep k =
        L.live-set_ne rds _ _ v ttl' s (make_keys_apart q p j k apart) ∙ rep k
    Represents-second (delete_op j) m s rep k =
        L.live-del_ne rds _ _ s (make_keys_apart q p j k apart) ∙ rep k

    Represents-turns :
        (ts : List (Turn R.Any)) (m : String → Option (R.Any × ℕ)) (s : R.State)
        → Represents R first L m s
        → Quiet ts s
        → Represents R first L (apply_all ttl (firsts ts) m) (turns ts s)
    Represents-turns [] m s rep done = rep
    Represents-turns (inl o ∷ ts) m s rep (now, later) =
        Represents-turns ts _ _ (Represents-perform R first L o m s timed rep now) later
    Represents-turns (inr (wait d) ∷ ts) m s rep (now, later) =
        Represents-turns ts _ _ (Represents-second (wait d) m s rep) later
    Represents-turns (inr (set_op j v) ∷ ts) m s rep (now, later) =
        Represents-turns ts m _ (Represents-second (set_op j v) m s rep) later
    Represents-turns (inr (delete_op j) ∷ ts) m s rep (now, later) =
        Represents-turns ts m _ (Represents-second (delete_op j) m s rep) later

    -- Two caches on one client whose prefixes differ, and neither of whose prefixes is the other
    -- followed by a dash and more, the first with a TTL of whole milliseconds: from every state that
    -- holds the abstract cache m under the first prefix, after any interleaving of their operations
    -- that report no error, Get of every key of the first one returns what the abstract cache has
    -- under it after the operations of the first one alone, with the time that passed.
    pub turns-eq-shown :
        (ts : List (Turn R.Any)) (m : String → Option (R.Any × ℕ)) (s : R.State) (key : String)
        → Represents R first L m s
        → Quiet ts s
        → get R first key (turns ts s) ≡ shown R.redis_nil (apply_all ttl (firsts ts) m key)
    turns-eq-shown ts m s key rep done =
        get-eq-shown R first L [] (apply_all ttl (firsts ts) m) (turns ts s) key timed
          (Represents-turns ts m s rep done) tt
