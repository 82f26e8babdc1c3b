-- ===== src/Audit/QueueClient/Connection.antt =====
-- What the client of the queue dials.
use micro_services.Base.{String, ◌≡◌, ap, List, [], ◌∷◌, ◌++◌, map}
use micro_services.Grpc.{Grpc, Protobuf}
use micro_services.GrpcClient.{plaintext_transport}
use micro_services.GrpcClient.Dialing.{
  Setting, extra, setting, chain_option, all_unary, all_stream, all_extra, dial-eq-new_client,
}
use micro_services.Audit.QueueClient.{Connector, connected, new}

-- New with any settings dials with the plaintext transport, the chains of the settings' own
-- interceptors, the stats handler and then the settings' other options, in this order, and wraps the
-- connection; an error of NewClient is returned as it is.
new-eq-new_client :
    {G : Grpc} {P : Protobuf} {Ctx App : Type 0} (N : Connector G P Ctx App) (addr : String)
    (ss : List (Setting N.dialer))
    → new N addr (map setting ss)
      ≡ connected N (
          N.dialer.new_client addr (
            plaintext_transport N.dialer ∷ chain_option N.dialer.with_chain_unary (all_unary ss)
            ++ (chain_option N.dialer.with_chain_stream (all_stream ss)
                ++ N.stats_handler ∷ all_extra ss)))
unfolding new
new-eq-new_client N addr ss =
    ap (connected N) (dial-eq-new_client N.dialer addr (extra (N.stats_handler ∷ []) ∷ ss))
