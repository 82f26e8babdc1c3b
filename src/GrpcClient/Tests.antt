-- ===== src/GrpcClient/Tests.antt =====
-- A dial with options, and a logged call.
use micro_services.Base.{ℕ, String, ◌≡◌, none, some, List, [], ◌∷◌, map}
use micro_services.Errors.{ok}
use micro_services.Grpc.{World, returned}
use micro_services.Grpc.Examples.{statuses, morning}
use micro_services.GrpcClient.{Dialer, dial}
use micro_services.GrpcClient.Dialing.{Setting, unary, extra, setting, dial-eq-new_client}
use micro_services.GrpcClient.Logging.{Invoker}

-- Options by name; a connection is what it was made of.
data Named : Type 0 where
  insecure stats : Named
  chained : List String → Named

abbrev dialer : Dialer
dialer = record {
  UnaryInterceptor = String;
  StreamInterceptor = String;
  DialOption = Named;
  ClientConn = String × List Named;
  insecure_transport = insecure;
  with_chain_unary = chained;
  with_chain_stream = chained;
  new_client = λ addr opts. ok (addr, opts);
}

abbrev settings : List (Setting dialer)
settings = unary ("log" ∷ []) ∷ extra (stats ∷ []) ∷ unary ("retry" ∷ []) ∷ []

dial-eq-new_client_example :
    dial dialer "queue:8080" (map setting settings)
    ≡ ok ("queue:8080", insecure ∷ chained ("log" ∷ "retry" ∷ []) ∷ stats ∷ [])
dial-eq-new_client_example = dial-eq-new_client dialer "queue:8080" settings

abbrev later : World ℕ
later = record morning { now = 9000000; app = 1 }

abbrev double : Invoker statuses String ℕ ℕ ℕ
double ctx method req w = (returned (some 6) none, later)
