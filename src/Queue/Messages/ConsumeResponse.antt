-- ===== src/Queue/Messages/ConsumeResponse.antt =====
-- The message ConsumeResponse of modules/queue/src/route/grpc/queue.pb.go, with its getters.
use micro_services.Base.{Option, none, some, List, []}
use micro_services.Grpc.{Protobuf}
use micro_services.Queue.Messages.LeasedMessage.{LeasedMessage}

pub record ConsumeResponse (P : Protobuf) : Type 0 where
  pub messages : List (Option (LeasedMessage P))

-- The empty message.
unfoldable pub zero_value : {P : Protobuf} → ConsumeResponse P
zero_value = record { messages = [] }

-- Reset: `*x = ConsumeResponse{}`.
unfoldable pub reset : {P : Protobuf} → ConsumeResponse P → ConsumeResponse P
unfolding zero_value
reset x = zero_value

unfoldable pub get_messages :
    {P : Protobuf} → Option (ConsumeResponse P) → List (Option (LeasedMessage P))
get_messages (some x) = x.messages
get_messages none = []
