-- ===== src/Queue/Route/Calls.antt =====
-- Calls to the server that NewServer assembles.
use micro_services.Base.{String, ◌≡◌, refl, ◌∙◌, none, some, All}
use micro_services.Grpc.{Grpc, Protobuf, World, Outcome, returned}
use micro_services.Grpc.Serving.{Bound, ServerLib, IsServer, find_method, assembled_call}
use micro_services.Audit.Interceptor.Chain.{observed}
use micro_services.Queue.Wire.{QueueRequest, QueueReply}
use micro_services.Queue.Server.{QueueServer, Decoder, MethodDesc, service_methods, new_handler}
use micro_services.Queue.Server.Calls.{
  Decodes, IsGarbled, queue_garbled, queue_calls-IsObserved, queue_scaffold, scaffold,
}
use micro_services.Queue.Route.{bound_methods, interceptors, new_server}

module _ {G : Grpc} {P : Protobuf} {Ctx App : Type 0}
    (L : ServerLib G Ctx (Decoder G P Ctx App) (QueueRequest P) (QueueReply P) App) (K : IsServer L)
    (ctx : Ctx) (dec : Decoder G P Ctx App) (w : World App) where
  -- What holds of a call of each method of the service, by its full name.
  abbrev pub EachCall :
      QueueServer G P Ctx App
      → (MethodDesc G P Ctx App → Outcome G.Err (QueueReply P) × World App)
      → Type 0
  EachCall srv answer =
      All
        (λ (d : MethodDesc G P Ctx App).
          L.call (new_server L srv) d.full_method_name ctx dec w ≡ answer d)
        (service_methods G)

  called :
      (srv : QueueServer G P Ctx App) {name : String}
      {b : Bound G Ctx (Decoder G P Ctx App) (QueueRequest P) (QueueReply P) App}
      → find_method name (bound_methods L srv) ≡ some b
      → L.call (new_server L srv) name ctx dec w ≡ b ctx dec (some (K.chain (interceptors L))) w
  unfolding new_server
  called srv h = assembled_call L K (interceptors L) (bound_methods L srv) _ _ ctx dec w h

  -- On the server that NewServer makes of any implementation, a call of each method of the
  -- description by its full name, with a request that decodes, is the bare call of the
  -- implementation, with its line added to the log and with a panic turned into a logged Internal
  -- error.
  pub queue_server-observed :
      (srv : QueueServer G P Ctx App)
      → Decodes dec
      → EachCall srv (λ d. observed G d.full_method_name w.now (d.handler srv ctx dec none w))
  unfolding service_methods
  queue_server-observed srv D =
      let calls = queue_calls-IsObserved G P K.chain K.chain-IsChain srv ctx dec w D in
      (
        called srv refl ∙ calls.0,
        (
          called srv refl ∙ calls.1.0,
          (called srv refl ∙ calls.1.1.0, (called srv refl ∙ calls.1.1.1.0, tt)),
        ),
      )

  -- A call with a request that does not decode returns the decoding error: neither the implementation
  -- nor an interceptor runs, and nothing is logged.
  queue_server-garbled :
      (srv : QueueServer G P Ctx App) (e : G.Err)
      → IsGarbled dec e
      → EachCall srv (λ d. (returned none (some e), w))
  unfolding service_methods
  queue_server-garbled srv e h =
      let calls = queue_garbled G P srv ctx dec e (some (K.chain (interceptors L))) w h in
      (
        called srv refl ∙ calls.0,
        (
          called srv refl ∙ calls.1.0,
          (called srv refl ∙ calls.1.1.0, (called srv refl ∙ calls.1.1.1.0, tt)),
        ),
      )

  -- On the server as the main of the service makes it, with NewHandler, every method answers a
  -- request that decodes with no response and the Unimplemented status naming the method, and logs
  -- exactly one line.
  queue_server-scaffold :
      Decodes dec → EachCall (new_handler G P) (λ d. scaffold G P K.chain K.chain-IsChain d w)
  unfolding service_methods
  queue_server-scaffold D =
      let srv = new_handler G P in
      let calls = queue_scaffold G P K.chain K.chain-IsChain ctx dec w D in
      (
        called srv refl ∙ calls.0,
        (
          called srv refl ∙ calls.1.0,
          (called srv refl ∙ calls.1.1.0, (called srv refl ∙ calls.1.1.1.0, tt)),
        ),
      )
