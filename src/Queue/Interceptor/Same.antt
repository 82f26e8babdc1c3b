-- ===== src/Queue/Interceptor/Same.antt =====
-- The queue's interceptors against the audit's: two copies of one text.
use mathlib.Core.Path.{ap₂}
use micro_services.Base.{ℕ, String, ◌≡◌, refl, ◌∙◌, ap, List, [], ◌∷◌}
use micro_services.Grpc.{
  Grpc, World, Outcome, returned, panicked, UnaryHandler, Interceptor, IsChain,
}
use micro_services.Audit.Interceptor
use micro_services.Audit.Interceptor.Chain.{observed, chain-observed}
use micro_services.Queue.Interceptor.{log_call, recover, logging, recovery}

module _ (G : Grpc) {Resp App : Type 0} where
  log_call-eq :
      (method : String) (start : ℕ) (r : Outcome G.Err Resp × World App)
      → log_call G method start r ≡ Interceptor.log_call G method start r
  log_call-eq method start (returned resp err, w) = refl
  log_call-eq method start (panicked p, w) = refl

  recover-eq :
      (method : String) (r : Outcome G.Err Resp × World App)
      → recover G method r ≡ Interceptor.recover G method r
  recover-eq method (returned resp err, w) = refl
  recover-eq method (panicked p, w) = refl

module _ (G : Grpc) {Ctx Req Resp App : Type 0} where
  logging-eq :
      (ctx : Ctx) (req : Req) (method : String) (h : UnaryHandler G Ctx Req Resp App)
      (w : World App)
      → logging G ctx req method h w ≡ Interceptor.logging G ctx req method h w
  unfolding logging Interceptor.logging
  logging-eq ctx req method h w = log_call-eq G method w.now (h ctx req w)

  recovery-eq :
      (ctx : Ctx) (req : Req) (method : String) (h : UnaryHandler G Ctx Req Resp App)
      (w : World App)
      → recovery G ctx req method h w ≡ Interceptor.recovery G ctx req method h w
  unfolding recovery Interceptor.recovery
  recovery-eq ctx req method h w = recover-eq G method (h ctx req w)

  logging_path : logging G {Ctx = Ctx} {Req = Req} {Resp = Resp} {App = App} ≡ Interceptor.logging G
  logging_path = λ i ctx req method h w. logging-eq ctx req method h w i

  recovery_path :
      recovery G {Ctx = Ctx} {Req = Req} {Resp = Resp} {App = App} ≡ Interceptor.recovery G
  recovery_path = λ i ctx req method h w. recovery-eq ctx req method h w i

  -- The queue's two interceptors are, call by call, the same functions as the audit's, so the two
  -- servers install the same chain.
  queue_interceptors-eq-audit :
      ◌≡◌ {A = List (Interceptor G Ctx Req Resp App)}
        (logging G ∷ recovery G ∷ [])
        (Interceptor.logging G ∷ Interceptor.recovery G ∷ [])
  queue_interceptors-eq-audit = ap₂ (λ a b. a ∷ b ∷ []) logging_path recovery_path

module _ (G : Grpc) {Ctx Req Resp App : Type 0}
    (chain : List (Interceptor G Ctx Req Resp App) → Interceptor G Ctx Req Resp App)
    (C : IsChain G Ctx Req Resp App chain) where
  pub queue_chain-observed :
      (ctx : Ctx) (req : Req) (method : String) (h : UnaryHandler G Ctx Req Resp App)
      (w : World App)
      → chain (logging G ∷ recovery G ∷ []) ctx req method h w
        ≡ observed G method w.now (h ctx req w)
  queue_chain-observed ctx req method h w =
      ap (λ is. chain is ctx req method h w) (queue_interceptors-eq-audit G)
      ∙ chain-observed G chain C ctx req method h w
