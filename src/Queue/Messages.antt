-- ===== src/Queue/Messages.antt =====
-- The messages of modules/queue/src/route/grpc/queue.pb.go: the fields and getters. The bookkeeping of the protobuf runtime
-- (state, sizeCache, unknownFields, the descriptors) is left out.
pub mod Topic
pub mod CreateTopicRequest
pub mod PublishRequest
pub mod PublishResponse
pub mod ConsumeRequest
pub mod LeasedMessage
pub mod ConsumeResponse
pub mod AckRequest
pub mod Resets
