-- ===== src/Grpc.antt =====
-- internal/server/grpc.go: what the methods of the gRPC server return. The transport and the module
-- timestamppb are parameters.
pub mod Messages
pub mod Profiles
pub mod Interceptor
pub mod Access
pub mod Grants
pub mod Statistics
pub mod Listings
pub mod Enrollment
use room_chat.Prelude.{ℕ, Text}
use room_chat.Protocol.{UserErrMessage}

-- The codes that the code names.
pub data Code : Type 0 where
  invalid_argument unauthenticated permission_denied already_exists internal : Code

-- An answer, an error with a code, or an error without one, which the gRPC library reports as
-- Unknown.
pub data Rpc (A : Type 0) : Type 0 where
  answer : A → Rpc A
  status : Code → UserErrMessage → Rpc A
  plain_error : Text → Rpc A

-- timestamppb.New.
pub record Timestamps : Type 1 where
  pub Timestamp : Type 0
  pub new_timestamp : ℕ → Timestamp
