-- ===== src/Queue/Messages/PublishResponse.antt =====
-- The message PublishResponse of modules/queue/src/route/grpc/queue.pb.go, with its getters.
use micro_services.Base.{ℕ, Option, none, some}

pub record PublishResponse : Type 0 where
  pub message_id : ℕ

-- The empty message.
unfoldable pub zero_value : PublishResponse
zero_value = record { message_id = 0 }

-- Reset: `*x = PublishResponse{}`.
unfoldable pub reset : PublishResponse → PublishResponse
unfolding zero_value
reset x = zero_value

unfoldable pub get_message_id : Option PublishResponse → ℕ
get_message_id (some x) = x.message_id
get_message_id none = 0
