-- ===== src/Wire/GrpcHelper.antt =====
-- wire/grpc_helper.go: IsGrpcError.
use fim.Base.{Bool, false, Option, none, some}

-- `err` is none when it is nil; `from_error` is status.FromError of google.golang.org/grpc with the
-- code of the status, and `same` compares codes.
pub is_grpc_error : {E C : Type 0} → (E → Option C) → (C → C → Bool) → Option E → C → Bool
is_grpc_error from_error same none code = false
is_grpc_error from_error same (some e) code = elim (from_error e) [
  | none ↦ false
  | some c ↦ same c code
]
