-- ===== src/Auth/Main/Lifetime.antt =====
-- When the service starts, and what it releases.
use micro_services.Base.{
  String, ◌≡◌, ◌≢◌, refl, ◌↔◌, Option, none, some, Option-cases, List, [], ◌∷◌, ==_iff, string_eq,
  arith, inl, inr,
}
use micro_services.Errors.{Error, ok, Result-cases}
use micro_services.Cache.{new_client}
use micro_services.Cache.Server.{Redis}
use micro_services.Otel.Init.{Globals, Sdk, Shutdown, run_shutdown, init}
use micro_services.Auth.Env.{
  Env, new_env, validate_env, env_db_url, env_cache_addr, env_cache_prefix,
}
use micro_services.Auth.Main.{
  Postgres, new_db, Action, server_shutdown, otel_shutdown, cache_closed, database_closed, Releases,
  shutdown, run,
}

-- The environment is accepted exactly when none of its three variables is empty.
validate_env_iff :
    (e : Env)
    → (validate_env e ≡ none) ↔ ((e.db_url ≢ "") × (e.cache_addr ≢ "") × (e.cache_prefix ≢ ""))
unfolding validate_env
validate_env_iff e =
    ground (arith, ==_iff e.db_url "", ==_iff e.cache_addr "", ==_iff e.cache_prefix "")

-- The releases among some actions, in order.
abbrev pub released : List Action → List Action
released [] = []
released (server_shutdown ∷ rest) = server_shutdown ∷ released rest
released (otel_shutdown ∷ rest) = otel_shutdown ∷ released rest
released (cache_closed ∷ rest) = cache_closed ∷ released rest
released (database_closed ∷ rest) = database_closed ∷ released rest
released (_ ∷ rest) = released rest

-- Whatever the releases report, shutdown attempts each of the four once: the server, telemetry, the
-- cache and the database, in this order.
shutdown-released :
    (r : Releases) (otel : Option Error)
    → released (shutdown r otel)
      ≡ server_shutdown ∷ otel_shutdown ∷ cache_closed ∷ database_closed ∷ []
unfolding shutdown
shutdown-released r otel = ground arith

new_client_iff :
    (R : Redis) (addr pass : String) (redis : R.State)
    → ((c : R.Client) × (new_client R addr pass redis ≡ ok c))
      ↔ (R.ping (R.new_client addr pass 0) redis ≡ none)
unfolding new_client
new_client_iff R addr pass redis = elim (Option-cases (R.ping (R.new_client addr pass 0) redis)) [
  | inl h ↦ (λ _. h, λ _. (R.new_client addr pass 0, rw (h, new_client) refl))
  | inr (e, h) ↦ (λ (c, k). ground arith, λ k. ground arith)
]

new_db_iff :
    (S : Postgres) (uri : String)
    → ((c : S.Conn) × (new_db S uri ≡ ok c))
      ↔ ((c : S.Conn) × (S.open_db uri ≡ ok c) × (S.ping c ≡ none))
unfolding new_db
new_db_iff S uri = elim (Result-cases (S.open_db uri)) [
  | inr (e, h) ↦ (λ (c, k). ground arith, λ (c, k, p). ground arith)
  | inl (d, h) ↦ elim (Option-cases (S.ping d)) [
    | inl p ↦ (λ _. (d, h, p), λ _. (d, rw (h, new_db, p) refl))
    | inr (e, p) ↦ (λ (c, k). ground arith, λ (c, k, q). ground arith)
  ]
]

module _ (R : Redis) (S : Postgres) (k : Sdk) (redis : R.State) (r : Releases)
    (getenv : String → String) (g : Globals) where
  abbrev pub ran : Option Error × List Action
  ran = run R S k redis r getenv g

  -- What run needs to serve. The prefix of the keys is given to the client as its password.
  abbrev pub Starts : Type 0
  Starts =
      ((getenv env_db_url ≢ "") × (getenv env_cache_addr ≢ "") × (getenv env_cache_prefix ≢ ""))
      × ((s : Shutdown) × ((init k "auth-api" getenv g).0 ≡ ok s))
      × (R.ping (R.new_client (getenv env_cache_addr) (getenv env_cache_prefix) 0) redis ≡ none)
      × ((c : S.Conn) × (S.open_db (getenv env_db_url) ≡ ok c) × (S.ping c ≡ none))

  -- run returns no error exactly when the three variables are not empty, telemetry starts, Redis
  -- answers a client that has the prefix of the keys as its password, and the database opens and
  -- answers.
  pub run-eq-none_iff : (ran.0 ≡ none) ↔ Starts
  unfolding run
  run-eq-none_iff =
      let cache = new_client_iff R (getenv env_cache_addr) (getenv env_cache_prefix) redis in
      let database = new_db_iff S (getenv env_db_url) in
      elim (Option-cases (validate_env (new_env getenv))) [
        | inr (e, h) ↦ ground (arith, validate_env_iff (new_env getenv))
        | inl h ↦ elim (Result-cases (init k "auth-api" getenv g).0) [
          | inr (e, o) ↦ (λ x. ground arith, λ (_, (s, x), _, _). ground arith)
          | inl (s, o) ↦
              elim (Result-cases
                (new_client R (getenv env_cache_addr) (getenv env_cache_prefix) redis)) [
                  | inr (e, c) ↦
                      (λ x. ground arith, λ (_, _, x, _). let (d, y) = cache.1 x in ground arith)
                  | inl (d, c) ↦ elim (Result-cases (new_db S (getenv env_db_url))) [
                    | inr (e, b) ↦ (
                      λ x. ground arith,
                      λ (_, _, _, x). let (q, y) = database.1 x in ground arith,
                    )
                    | inl (b, q) ↦ (
                      λ _. (
                        (validate_env_iff (new_env getenv)).0 h,
                        (s, o),
                        cache.0 (d, c),
                        database.0 (b, q),
                      ),
                      λ _. ground arith,
                    )
                  ]
                ]
        ]
      ]

  -- What a run releases, by the error that it returns.
  abbrev pub releases_due : Option Error → List Action
  releases_due none = server_shutdown ∷ otel_shutdown ∷ cache_closed ∷ database_closed ∷ []
  releases_due (some e) = []

  -- A run that serves releases all four resources in order, whatever the releases report; a run that
  -- returns an error releases nothing, not even what it had already started.
  pub run-released : released ran.1 ≡ releases_due ran.0
  unfolding run
  run-released = elim (Option-cases (validate_env (new_env getenv))) [
    | inr (e, h) ↦ ground arith
    | inl h ↦ elim (Result-cases (init k "auth-api" getenv g).0) [
      | inr (e, o) ↦ ground arith
      | inl (s, o) ↦ ground (arith, shutdown-released r (run_shutdown k s))
    ]
  ]
