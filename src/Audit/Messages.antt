-- ===== src/Audit/Messages.antt =====
-- The messages of modules/audit/src/route/grpc/audit.pb.go: the fields and getters. The bookkeeping of the protobuf runtime
-- (state, sizeCache, unknownFields, the descriptors) is left out.
pub mod Event
pub mod Actor
pub mod What
pub mod Where
pub mod Why
pub mod How
pub mod IngestRequest
pub mod IngestResponse
pub mod GetEventRequest
pub mod ListEventsRequest
pub mod ListEventsResponse
pub mod Resets
