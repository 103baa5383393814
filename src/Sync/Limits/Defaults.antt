-- ===== src/Sync/Limits/Defaults.antt =====
-- What `WithDefaults` gives for a partial configuration (server/internal/sync/dto.go).
use stok_sync.Common.{◌≡◌, arith, if◌then◌else◌}
use stok_sync.Common.Int.{pos, ◌≤ℤ◌, eq_ℤ}
use stok_sync.Sync.Limits.{Limits, valid, with_defaults, validate_limits, default_limits}

-- If no bound is negative, and the payload bound is omitted or is at most a given request bound, or at
-- most the default one where the request bound is omitted, then the completed configuration is
-- valid.
pub validate_limits-with_defaults :
    (l : Limits)
    → pos 0 ≤ℤ l.max_request_bytes
    → pos 0 ≤ℤ l.max_operations
    → pos 0 ≤ℤ l.max_changes
    → pos 0 ≤ℤ l.max_operation_payload_bytes
    → l.max_operation_payload_bytes ≤ℤ (
        if eq_ℤ l.max_request_bytes (pos 0)
        then default_limits.max_request_bytes
        else l.max_request_bytes)
    → validate_limits (with_defaults l) ≡ valid tt
unfolding with_defaults validate_limits default_limits
validate_limits-with_defaults l request operations changes payload bounded = ground arith
