-- ===== src/GrpcClient.antt =====
-- modules/shared/src/utilgrpc: how the services dial a gRPC connection.
pub mod Dialing
pub mod Logging
mod Tests
use micro_services.Base.{ℕ, ltb, String, List, [], ◌∷◌, ◌++◌, length, if◌then◌else◌}
use micro_services.Errors.{Result}

-- google.golang.org/grpc's client side: a parameter.
pub record Dialer : Type 1 where
  pub UnaryInterceptor : Type 0
  pub StreamInterceptor : Type 0
  pub DialOption : Type 0
  pub ClientConn : Type 0
  -- WithTransportCredentials(insecure.NewCredentials())
  pub insecure_transport : DialOption
  pub with_chain_unary : List UnaryInterceptor → DialOption
  pub with_chain_stream : List StreamInterceptor → DialOption
  pub new_client : String → List DialOption → Result ClientConn

abbrev pub plaintext_transport : (D : Dialer) → D.DialOption
plaintext_transport D = D.insecure_transport

module _ (D : Dialer) where
  pub record Config : Type 0 where
    pub unary_interceptors : List D.UnaryInterceptor
    pub stream_interceptors : List D.StreamInterceptor
    pub extra : List D.DialOption

  abbrev pub DialSetting : Type 0
  DialSetting = Config → Config

  unfoldable pub with_unary_interceptors : List D.UnaryInterceptor → DialSetting
  with_unary_interceptors is c = record c { unary_interceptors = c.unary_interceptors ++ is }

  unfoldable pub with_stream_interceptors : List D.StreamInterceptor → DialSetting
  with_stream_interceptors is c = record c { stream_interceptors = c.stream_interceptors ++ is }

  unfoldable pub with_dial_option : List D.DialOption → DialSetting
  with_dial_option opts c = record c { extra = c.extra ++ opts }

  abbrev pub empty_config : Config
  empty_config = record { unary_interceptors = []; stream_interceptors = []; extra = [] }

  -- The loop over the options.
  unfoldable pub configure : List DialSetting → Config → Config
  configure [] c = c
  configure (opt ∷ opts) c = configure opts (opt c)

  -- The slice dialOpts that Dial builds from the configuration.
  unfoldable pub dial_options : Config → List D.DialOption
  dial_options cfg =
      let start = plaintext_transport D ∷ [] in
      let unary =
        if ltb 0 (length cfg.unary_interceptors)
        then start ++ D.with_chain_unary cfg.unary_interceptors ∷ []
        else start in
      let stream =
        if ltb 0 (length cfg.stream_interceptors)
        then unary ++ D.with_chain_stream cfg.stream_interceptors ∷ []
        else unary in
      stream ++ cfg.extra

  unfoldable pub dial : String → List DialSetting → Result D.ClientConn
  unfolding configure dial_options
  dial addr opts = D.new_client addr (dial_options (configure opts empty_config))
