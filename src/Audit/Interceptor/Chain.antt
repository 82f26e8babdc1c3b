-- ===== src/Audit/Interceptor/Chain.antt =====
-- The interceptors in the order in which the server installs them: logging around recovery.
use micro_services.Base.{ℕ, String, ◌≡◌, ◌≢◌, refl, ◌∙◌, ap, none, some, List, [], ◌∷◌}
use micro_services.Grpc.{
  Attr, Grpc, World, emit, Outcome, returned, panicked, UnaryHandler, Interceptor, IsChain,
}
use micro_services.Audit.Interceptor.{
  call_record, panic_record, log_call, recover, logging, recovery,
}

module _ (G : Grpc) {Resp App : Type 0} where
  -- What a caller and the log get of a call that ended in r, by the state of the world after it.
  abbrev pub observed : String → ℕ → Outcome G.Err Resp × World App → Outcome G.Err Resp × World App
  observed method start (returned resp err, w) =
      (returned resp err, emit (call_record G method err start w.now) w)
  observed method start (panicked p, w) =
      let err = some (G.status_error G.code_internal "internal server error") in
      (
        returned none err,
        emit (call_record G method err start w.now) (emit (panic_record G method p) w),
      )

  log_call-recover :
      (method : String) (start : ℕ) (r : Outcome G.Err Resp × World App)
      → log_call G method start (recover G method r) ≡ observed method start r
  log_call-recover method start (returned resp err, w) = refl
  log_call-recover method start (panicked p, w) = refl

  observed-ne-panicked :
      (method : String) (start : ℕ) (r : Outcome G.Err Resp × World App) (p : Attr)
      → (observed method start r).0 ≢ panicked p
  observed-ne-panicked method start (returned resp err, w) p e = cc
  observed-ne-panicked method start (panicked q, w) p e = cc

module _ (G : Grpc) {Ctx Req Resp App : Type 0}
    (chain : List (Interceptor G Ctx Req Resp App) → Interceptor G Ctx Req Resp App)
    (C : IsChain G Ctx Req Resp App chain) where
  -- A call through the chain of logging and recovery, for any handler: what the handler returns is
  -- returned as it is and one line is logged with its code; a panic is answered with no response and
  -- the Internal status, after one line for the panic and one for the call, in this order.
  pub chain-observed :
      (ctx : Ctx) (req : Req) (method : String) (h : UnaryHandler G Ctx Req Resp App)
      (w : World App)
      → chain (logging G ∷ recovery G ∷ []) ctx req method h w
        ≡ observed G method w.now (h ctx req w)
  unfolding logging recovery
  chain-observed ctx req method h w =
      C.chain-cons (logging G) (recovery G ∷ []) ctx req method h w
      ∙ ap (log_call G method w.now) (
          C.chain-cons (recovery G) [] ctx req method h w
          ∙ ap (recover G method) (C.chain-nil ctx req method h w))
      ∙ log_call-recover G method w.now (h ctx req w)

  -- Whatever the handler does, a call through the chain returns.
  chain-ne-panicked :
      (ctx : Ctx) (req : Req) (method : String) (h : UnaryHandler G Ctx Req Resp App)
      (w : World App) (p : Attr)
      → (chain (logging G ∷ recovery G ∷ []) ctx req method h w).0 ≢ panicked p
  chain-ne-panicked ctx req method h w p =
      rw (chain-observed ctx req method h w) (observed-ne-panicked G method w.now (h ctx req w) p)

  -- With the two interceptors the other way round a panic would leave no line for the call: only the
  -- line of the panic would be logged.
  swapped_panic :
      (ctx : Ctx) (req : Req) (method : String) (h : UnaryHandler G Ctx Req Resp App)
      (w w' : World App) (p : Attr)
      → h ctx req w ≡ (panicked p, w')
      → (chain (recovery G ∷ logging G ∷ []) ctx req method h w).1
        ≡ emit (panic_record G method p) w'
  unfolding logging recovery
  swapped_panic ctx req method h w w' p e =
      ap (λ (r : Outcome G.Err Resp × World App). r.1)
        (C.chain-cons (recovery G) (logging G ∷ []) ctx req method h w
          ∙ ap (recover G method) (
              C.chain-cons (logging G) [] ctx req method h w
              ∙ ap (log_call G method w.now) (C.chain-nil ctx req method h w ∙ e)))
