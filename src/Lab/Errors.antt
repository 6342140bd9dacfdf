-- ===== src/Lab/Errors.antt =====
-- The errors that services/platform-api/internal/lab returns.
use website_go_based.Lab.Quota.{QuotaError}

-- `internal` is an error of the database or of an encoder, wrapped by `fmt.Errorf`; `nil_pointer` is
-- the panic of a nil dereference; `quota` passes on an error of quota.go.
pub data LabError : Type 0 where
  invalid_request already_active course_not_found lab_unavailable not_found not_owned : LabError
  operation_conflict busy not_running state_conflict action_not_allowed : LabError
  instance_not_found min_instance_limit max_instance_limit weight_invalid : LabError
  capacity_exceeded_error internal nil_pointer : LabError
  quota : QuotaError → LabError
