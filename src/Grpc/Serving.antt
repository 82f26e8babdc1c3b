-- ===== src/Grpc/Serving.antt =====
-- The server side of google.golang.org/grpc with its health and reflection services: a parameter.
use mathlib.Core.List.{append-nil}
use micro_services.Base.{
  String, ◌≡◌, ◌∙◌, ap, Bool-cases, inl, inr, Option, none, some, List, [], ◌∷◌, ◌++◌, ◌==◌,
  string_eq, if◌then◌else◌, arith,
}
use micro_services.Grpc.{Grpc, World, Outcome, Interceptor, IsChain}

module _ (G : Grpc) (Ctx Decode Req Resp App : Type 0) where
  -- A method's handler with the implementation that it was registered with.
  abbrev pub Bound : Type 0
  Bound =
      Ctx
      → Decode
      → Option (Interceptor G Ctx Req Resp App)
      → World App
      → Outcome G.Err Resp × World App

  -- `register` is RegisterService, with the methods of the description by their full names.
  pub record ServerLib : Type 1 where
    pub ServerOption : Type 0
    pub Server : Type 0
    -- grpc.StatsHandler(otelgrpc.NewServerHandler())
    pub stats_handler : ServerOption
    pub chain_unary_interceptor : List (Interceptor G Ctx Req Resp App) → ServerOption
    pub new_server : List ServerOption → Server
    pub register : List (String × Bound) → Server → Server
    pub register_health : Server → Server
    pub register_reflection : Server → Server
    -- A call of the method with this full name.
    pub call : Server → String → Ctx → Decode → World App → Outcome G.Err Resp × World App

abbrev pub find_method {ℓ} : {B : Type ℓ} → String → List (String × B) → Option B
find_method name [] = none
find_method name ((n, b) ∷ ms) = if n == name then some b else find_method name ms

find_method-append {ℓ} :
    {B : Type ℓ} (name : String) (ms ns : List (String × B)) (b : B)
    → find_method name ms ≡ some b
    → find_method name (ms ++ ns) ≡ some b
find_method-append name [] ns b h = ground arith
find_method-append name ((n, c) ∷ ms) ns b h = elim (Bool-cases (n == name)) [
  | inl same ↦ ground arith
  | inr differ ↦ ground (arith, find_method-append name ms ns b)
]

module _ {G : Grpc} {Ctx Decode Req Resp App : Type 0}
    (L : ServerLib G Ctx Decode Req Resp App) where
  -- The options add up, a registration adds methods, and a call of a registered method runs its
  -- handler with the chain of the server's interceptors.
  pub record IsServer : Type 0 where
    pub methods : L.Server → List (String × Bound G Ctx Decode Req Resp App)
    pub interceptors : L.Server → List (Interceptor G Ctx Req Resp App)
    pub chain : List (Interceptor G Ctx Req Resp App) → Interceptor G Ctx Req Resp App
    pub chain-IsChain : IsChain G Ctx Req Resp App chain
    pub health : List (String × Bound G Ctx Decode Req Resp App)
    pub reflection : List (String × Bound G Ctx Decode Req Resp App)
    pub methods-new_server : (os : List L.ServerOption) → methods (L.new_server os) ≡ []
    pub interceptors_nil : interceptors (L.new_server []) ≡ []
    pub interceptors-stats_handler :
        (os : List L.ServerOption)
        → interceptors (L.new_server (L.stats_handler ∷ os)) ≡ interceptors (L.new_server os)
    pub interceptors-chain :
        (is : List (Interceptor G Ctx Req Resp App)) (os : List L.ServerOption)
        → interceptors (L.new_server (L.chain_unary_interceptor is ∷ os))
          ≡ is ++ interceptors (L.new_server os)
    pub methods-register :
        (ms : List (String × Bound G Ctx Decode Req Resp App)) (s : L.Server)
        → methods (L.register ms s) ≡ methods s ++ ms
    pub methods-register_health :
        (s : L.Server) → methods (L.register_health s) ≡ methods s ++ health
    pub methods-register_reflection :
        (s : L.Server) → methods (L.register_reflection s) ≡ methods s ++ reflection
    pub interceptors-register :
        (ms : List (String × Bound G Ctx Decode Req Resp App)) (s : L.Server)
        → interceptors (L.register ms s) ≡ interceptors s
    pub interceptors-register_health :
        (s : L.Server) → interceptors (L.register_health s) ≡ interceptors s
    pub interceptors-register_reflection :
        (s : L.Server) → interceptors (L.register_reflection s) ≡ interceptors s
    pub call_method :
        (s : L.Server) (name : String) (b : Bound G Ctx Decode Req Resp App) (ctx : Ctx)
        (dec : Decode) (w : World App)
        → find_method name (methods s) ≡ some b
        → L.call s name ctx dec w ≡ b ctx dec (some (chain (interceptors s))) w

  module _ (K : IsServer) (is : List (Interceptor G Ctx Req Resp App))
      (ms : List (String × Bound G Ctx Decode Req Resp App)) where
    abbrev assembled : L.Server
    assembled = L.register_reflection (
        L.register_health
          (L.register ms (L.new_server (L.stats_handler ∷ L.chain_unary_interceptor is ∷ []))))

    assembled_interceptors : K.interceptors assembled ≡ is
    assembled_interceptors =
        K.interceptors-register_reflection _
        ∙ K.interceptors-register_health _
        ∙ K.interceptors-register ms _
        ∙ K.interceptors-stats_handler _
        ∙ K.interceptors-chain is []
        ∙ ap (λ rest. is ++ rest) K.interceptors_nil
        ∙ append-nil is

    assembled_methods : K.methods assembled ≡ (ms ++ K.health) ++ K.reflection
    assembled_methods =
        K.methods-register_reflection _
        ∙ ap (λ xs. xs ++ K.reflection)
            (K.methods-register_health _
              ∙ ap (λ xs. xs ++ K.health)
                  (K.methods-register ms _ ∙ ap (λ xs. xs ++ ms) (K.methods-new_server _)))

    -- A method found among the registered ones is called with exactly the given interceptors.
    pub assembled_call :
        (name : String) (b : Bound G Ctx Decode Req Resp App) (ctx : Ctx) (dec : Decode)
        (w : World App)
        → find_method name ms ≡ some b
        → L.call assembled name ctx dec w ≡ b ctx dec (some (K.chain is)) w
    assembled_call name b ctx dec w h =
        K.call_method assembled name b ctx dec w (
          ap (find_method name) assembled_methods
          ∙ find_method-append name (ms ++ K.health) K.reflection b
              (find_method-append name ms K.health b h))
        ∙ ap (λ xs. b ctx dec (some (K.chain xs)) w) assembled_interceptors
