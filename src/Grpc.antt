-- ===== src/Grpc.antt =====
-- internal/grpcapi: the gRPC side of the service. A status error is its code, with its message as a
-- format and arguments.
pub mod Authorization
pub mod Credentials
pub mod Server
use kinetix_search_service.Common.{ℕ, List, Text}
use kinetix_search_service.Search.Errors.{Arg}

pub record Status : Type 0 where
  pub code : ℕ
  pub format : Text
  pub args : List Arg
