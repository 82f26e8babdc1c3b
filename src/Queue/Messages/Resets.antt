-- ===== src/Queue/Messages/Resets.antt =====
-- Which messages cannot be told from the nil pointer by the getters.
use micro_services.Base.{◌≡◌, refl, ◌↔◌, Option, none, some}
use micro_services.Grpc.{Protobuf}
use micro_services.Queue.Messages.Topic
use micro_services.Queue.Messages.Topic.{Topic}
use micro_services.Queue.Messages.CreateTopicRequest
use micro_services.Queue.Messages.CreateTopicRequest.{CreateTopicRequest}
use micro_services.Queue.Messages.PublishRequest
use micro_services.Queue.Messages.PublishRequest.{PublishRequest}
use micro_services.Queue.Messages.PublishResponse
use micro_services.Queue.Messages.PublishResponse.{PublishResponse}
use micro_services.Queue.Messages.ConsumeRequest
use micro_services.Queue.Messages.ConsumeRequest.{ConsumeRequest}
use micro_services.Queue.Messages.LeasedMessage
use micro_services.Queue.Messages.LeasedMessage.{LeasedMessage}
use micro_services.Queue.Messages.ConsumeResponse
use micro_services.Queue.Messages.ConsumeResponse.{ConsumeResponse}
use micro_services.Queue.Messages.AckRequest
use micro_services.Queue.Messages.AckRequest.{AckRequest}

-- The getters of Topic give the same answers.
abbrev SameTopic : {P : Protobuf} → Option (Topic P) → Option (Topic P) → Type 0
SameTopic x y =
    (Topic.get_name x ≡ Topic.get_name y)
    × (Topic.get_default_ttl x ≡ Topic.get_default_ttl y)
    × (Topic.get_max_priority x ≡ Topic.get_max_priority y)
    × (Topic.get_created_at x ≡ Topic.get_created_at y)

-- The getters of CreateTopicRequest give the same answers.
abbrev SameCreateTopicRequest :
    {P : Protobuf} → Option (CreateTopicRequest P) → Option (CreateTopicRequest P) → Type 0
SameCreateTopicRequest x y =
    (CreateTopicRequest.get_name x ≡ CreateTopicRequest.get_name y)
    × (CreateTopicRequest.get_default_ttl x ≡ CreateTopicRequest.get_default_ttl y)
    × (CreateTopicRequest.get_max_priority x ≡ CreateTopicRequest.get_max_priority y)

-- The getters of PublishRequest give the same answers.
abbrev SamePublishRequest :
    {P : Protobuf} → Option (PublishRequest P) → Option (PublishRequest P) → Type 0
SamePublishRequest x y =
    (PublishRequest.get_topic x ≡ PublishRequest.get_topic y)
    × (PublishRequest.get_payload x ≡ PublishRequest.get_payload y)
    × (PublishRequest.get_priority x ≡ PublishRequest.get_priority y)
    × (PublishRequest.get_partition_key x ≡ PublishRequest.get_partition_key y)
    × (PublishRequest.get_headers x ≡ PublishRequest.get_headers y)
    × (PublishRequest.get_available_at x ≡ PublishRequest.get_available_at y)
    × (PublishRequest.get_expires_at x ≡ PublishRequest.get_expires_at y)

-- The getters of PublishResponse give the same answers.
abbrev SamePublishResponse : Option PublishResponse → Option PublishResponse → Type 0
SamePublishResponse x y = (PublishResponse.get_message_id x ≡ PublishResponse.get_message_id y)

-- The getters of ConsumeRequest give the same answers.
abbrev SameConsumeRequest :
    {P : Protobuf} → Option (ConsumeRequest P) → Option (ConsumeRequest P) → Type 0
SameConsumeRequest x y =
    (ConsumeRequest.get_topic x ≡ ConsumeRequest.get_topic y)
    × (ConsumeRequest.get_subscription x ≡ ConsumeRequest.get_subscription y)
    × (ConsumeRequest.get_max_messages x ≡ ConsumeRequest.get_max_messages y)
    × (ConsumeRequest.get_max_wait x ≡ ConsumeRequest.get_max_wait y)
    × (ConsumeRequest.get_consumer_id x ≡ ConsumeRequest.get_consumer_id y)

-- The getters of LeasedMessage give the same answers.
abbrev SameLeasedMessage :
    {P : Protobuf} → Option (LeasedMessage P) → Option (LeasedMessage P) → Type 0
SameLeasedMessage x y =
    (LeasedMessage.get_lease_id x ≡ LeasedMessage.get_lease_id y)
    × (LeasedMessage.get_message_id x ≡ LeasedMessage.get_message_id y)
    × (LeasedMessage.get_payload x ≡ LeasedMessage.get_payload y)
    × (LeasedMessage.get_priority x ≡ LeasedMessage.get_priority y)
    × (LeasedMessage.get_partition_key x ≡ LeasedMessage.get_partition_key y)
    × (LeasedMessage.get_headers x ≡ LeasedMessage.get_headers y)
    × (LeasedMessage.get_producer_id x ≡ LeasedMessage.get_producer_id y)
    × (LeasedMessage.get_attempt x ≡ LeasedMessage.get_attempt y)
    × (LeasedMessage.get_enqueued_at x ≡ LeasedMessage.get_enqueued_at y)
    × (LeasedMessage.get_leased_until x ≡ LeasedMessage.get_leased_until y)

-- The getters of ConsumeResponse give the same answers.
abbrev SameConsumeResponse :
    {P : Protobuf} → Option (ConsumeResponse P) → Option (ConsumeResponse P) → Type 0
SameConsumeResponse x y = (ConsumeResponse.get_messages x ≡ ConsumeResponse.get_messages y)

-- The getters of AckRequest give the same answers.
abbrev SameAckRequest : Option AckRequest → Option AckRequest → Type 0
SameAckRequest x y = (AckRequest.get_lease_id x ≡ AckRequest.get_lease_id y)

topic_lem : {P : Protobuf} (x y : Topic P) → SameTopic (some x) none ↔ (x ≡ Topic.reset y)
unfolding Topic.reset Topic.get_name Topic.get_default_ttl Topic.get_max_priority
    Topic.get_created_at
topic_lem x y = (
  λ (h0, h1, h2, h3).
      λ i. record { name = h0 i; default_ttl = h1 i; max_priority = h2 i; created_at = h3 i },
  λ e. rw e (refl, refl, refl, refl),
)

create_topic_request_lem :
    {P : Protobuf} (x y : CreateTopicRequest P)
    → SameCreateTopicRequest (some x) none ↔ (x ≡ CreateTopicRequest.reset y)
unfolding CreateTopicRequest.reset CreateTopicRequest.get_name CreateTopicRequest.get_default_ttl
    CreateTopicRequest.get_max_priority
create_topic_request_lem x y = (
  λ (h0, h1, h2). λ i. record { name = h0 i; default_ttl = h1 i; max_priority = h2 i },
  λ e. rw e (refl, refl, refl),
)

publish_request_lem :
    {P : Protobuf} (x y : PublishRequest P)
    → SamePublishRequest (some x) none ↔ (x ≡ PublishRequest.reset y)
unfolding PublishRequest.reset PublishRequest.get_topic PublishRequest.get_payload
    PublishRequest.get_priority PublishRequest.get_partition_key PublishRequest.get_headers
    PublishRequest.get_available_at PublishRequest.get_expires_at
publish_request_lem x y = (
  λ (h0, h1, h2, h3, h4, h5, h6). λ i. record {
    topic = h0 i;
    payload = h1 i;
    priority = h2 i;
    partition_key = h3 i;
    headers = h4 i;
    available_at = h5 i;
    expires_at = h6 i;
  },
  λ e. rw e (refl, refl, refl, refl, refl, refl, refl),
)

publish_response_lem :
    (x y : PublishResponse) → SamePublishResponse (some x) none ↔ (x ≡ PublishResponse.reset y)
unfolding PublishResponse.reset PublishResponse.get_message_id
publish_response_lem x y = (λ h0. λ i. record { message_id = h0 i }, λ e. rw e refl)

consume_request_lem :
    {P : Protobuf} (x y : ConsumeRequest P)
    → SameConsumeRequest (some x) none ↔ (x ≡ ConsumeRequest.reset y)
unfolding ConsumeRequest.reset ConsumeRequest.get_topic ConsumeRequest.get_subscription
    ConsumeRequest.get_max_messages ConsumeRequest.get_max_wait ConsumeRequest.get_consumer_id
consume_request_lem x y = (
  λ (h0, h1, h2, h3, h4). λ i. record {
    topic = h0 i;
    subscription = h1 i;
    max_messages = h2 i;
    max_wait = h3 i;
    consumer_id = h4 i;
  },
  λ e. rw e (refl, refl, refl, refl, refl),
)

leased_message_lem :
    {P : Protobuf} (x y : LeasedMessage P)
    → SameLeasedMessage (some x) none ↔ (x ≡ LeasedMessage.reset y)
unfolding LeasedMessage.reset LeasedMessage.get_lease_id LeasedMessage.get_message_id
    LeasedMessage.get_payload LeasedMessage.get_priority LeasedMessage.get_partition_key
    LeasedMessage.get_headers LeasedMessage.get_producer_id LeasedMessage.get_attempt
    LeasedMessage.get_enqueued_at LeasedMessage.get_leased_until
leased_message_lem x y = (
  λ (h0, h1, h2, h3, h4, h5, h6, h7, h8, h9). λ i. record {
    lease_id = h0 i;
    message_id = h1 i;
    payload = h2 i;
    priority = h3 i;
    partition_key = h4 i;
    headers = h5 i;
    producer_id = h6 i;
    attempt = h7 i;
    enqueued_at = h8 i;
    leased_until = h9 i;
  },
  λ e. rw e (refl, refl, refl, refl, refl, refl, refl, refl, refl, refl),
)

consume_response_lem :
    {P : Protobuf} (x y : ConsumeResponse P)
    → SameConsumeResponse (some x) none ↔ (x ≡ ConsumeResponse.reset y)
unfolding ConsumeResponse.reset ConsumeResponse.get_messages
consume_response_lem x y = (λ h0. λ i. record { messages = h0 i }, λ e. rw e refl)

ack_request_lem : (x y : AckRequest) → SameAckRequest (some x) none ↔ (x ≡ AckRequest.reset y)
unfolding AckRequest.reset AckRequest.get_lease_id
ack_request_lem x y = (λ h0. λ i. record { lease_id = h0 i }, λ e. rw e refl)

-- What the getters tell of a message, for each type of message.
abbrev pub NilIffReset : Protobuf → Type 0
NilIffReset P =
    ((x y : Topic P) → SameTopic (some x) none ↔ (x ≡ Topic.reset y))
    × ((x y : CreateTopicRequest P)
        → SameCreateTopicRequest (some x) none ↔ (x ≡ CreateTopicRequest.reset y))
    × ((x y : PublishRequest P) → SamePublishRequest (some x) none ↔ (x ≡ PublishRequest.reset y))
    × ((x y : PublishResponse) → SamePublishResponse (some x) none ↔ (x ≡ PublishResponse.reset y))
    × ((x y : ConsumeRequest P) → SameConsumeRequest (some x) none ↔ (x ≡ ConsumeRequest.reset y))
    × ((x y : LeasedMessage P) → SameLeasedMessage (some x) none ↔ (x ≡ LeasedMessage.reset y))
    × ((x y : ConsumeResponse P)
        → SameConsumeResponse (some x) none ↔ (x ≡ ConsumeResponse.reset y))
    × ((x y : AckRequest) → SameAckRequest (some x) none ↔ (x ≡ AckRequest.reset y))

-- For each of the 8 message types: a message answers all its getters as the nil pointer does
-- exactly when it is what Reset leaves of any message.
as_nil_queue_iff : (P : Protobuf) → NilIffReset P
as_nil_queue_iff P = (
  topic_lem, create_topic_request_lem, publish_request_lem, publish_response_lem,
  consume_request_lem, leased_message_lem, consume_response_lem, ack_request_lem,
)
