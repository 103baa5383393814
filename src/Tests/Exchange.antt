-- ===== src/Tests/Exchange.antt =====
-- The theorems on requests and exchanges at one request with one operation.
use Prim.Native.String.{len}
use stok_sync.Common.{some, [], ◌∷◌, ◌≡◌, refl, String, ℕ}
use stok_sync.Common.Int.{pos, ◌≤ℤ◌}
use stok_sync.Common.Text.{trim_space}
use stok_sync.Db.Types.{Database}
use stok_sync.Errors.{Time}
use stok_sync.Consistency.{IsConsistent, DistinctBalances}
use stok_sync.Sync.Limits.{valid, default_limits, with_defaults, validate_limits, configured_limits}
use stok_sync.Sync.Validate.{
  validate_operation, is_supported_operation, decode_payload, decode_strict_object, is_json_object,
  validate_movement, is_movement_kind,
}
use stok_sync.Sync.Request.{text, decode_request, validate_request, validate_operations}
use stok_sync.Sync.Request.Accepted.{Within, decode_request-Within}
use stok_sync.Sync.Handler.{post}
use stok_sync.Sync.Handler.Exchange.{post-IsConsistent, post-Explained, Explained}
use stok_sync.Sync.Process.Guarantees.{IsNumbered}
use stok_sync.Tests.World.{codec, request, identity, store}
use stok_sync.Tests.Core.{store-IsConsistent}

accepts : decode_request codec (default_limits ∷ []) (text "{request}") ≡ valid request
unfolding decode_request configured_limits default_limits with_defaults validate_limits
    validate_request validate_operations validate_operation is_supported_operation decode_payload
    decode_strict_object is_json_object validate_movement is_movement_kind trim_space
accepts = refl

decode_request-Within_example :
    (raw : String) × (text "{request}" ≡ text raw)
    × (pos (len raw) ≤ℤ (with_defaults default_limits).max_request_bytes)
    × Within codec (with_defaults default_limits) request
decode_request-Within_example =
    decode_request-Within codec default_limits (text "{request}") request accepts

abbrev clock : ℕ → Time
clock n = pos 1000

abbrev quiet : ℕ → Database → Database
quiet n db = db

post-IsConsistent_example :
    IsConsistent (post codec clock quiet default_limits (some identity) (text "{request}") store).1
    × DistinctBalances
        (post codec clock quiet default_limits (some identity) (text "{request}") store).1.balances
    × IsNumbered (post codec clock quiet default_limits (some identity) (text "{request}") store).1
post-IsConsistent_example =
    post-IsConsistent codec clock quiet default_limits (some identity) (text "{request}") store
      (λ n d h. h) (λ n d h. h) (λ n d h. h) store-IsConsistent (refl, tt) refl

post-Explained_example :
    Explained codec clock quiet default_limits
      (some identity)
      (text "{request}")
      store
      (post codec clock quiet default_limits (some identity) (text "{request}") store)
post-Explained_example =
    post-Explained codec clock quiet default_limits (some identity) (text "{request}") store
