-- ===== src/Xr.antt =====
-- OpenXR values that several components exchange: `XrResult` codes.
use xrtransport.Common.{ℕ, Bool, true, false}

-- The `XrResult` values that the code of the repository returns or tests for; `other_success` and
-- `other_error` are any further value of the enumeration, which the code only passes on.
pub data XrResult : Type 0 where
  success timeout_expired event_unavailable : XrResult
  error_call_order_invalid error_runtime_failure error_handle_invalid : XrResult
  error_function_unsupported error_size_insufficient error_limit_reached : XrResult
  error_api_version_unsupported error_extension_not_present : XrResult
  error_initialization_failed error_validation_failure : XrResult
  other_success other_error : ℕ → XrResult

-- XR_SUCCEEDED
abbrev pub succeeded : XrResult → Bool
succeeded success = true
succeeded timeout_expired = true
succeeded event_unavailable = true
succeeded (other_success n) = true
succeeded _ = false
