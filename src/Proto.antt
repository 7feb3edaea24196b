-- ===== src/Proto.antt =====
-- The messages of kernel/contracts/proto/srcport/substrate/v1/substrate.proto, as prost generates
-- them: an optional message is an `Option`, a `map<>` a `BTreeMap`, an `i64` an integer, and an
-- enum a number on the wire, which need not be one of its enumerators. A field whose name is
-- reserved here has another one: `module_name` for `module`, `payload` for `data`.
mod Enums
mod Registry
mod Artifacts
mod Runs
mod Calls
pub use Enums.{Lifecycle, Firing, BlobIngestMode, StoreDurability, Closure, RunState, ErrorCode}
unfoldable pub use Enums.{
  lifecycle_of, lifecycle_number, firing_of, ingest_mode_of, durability_of, closure_of,
  error_code_number, firing_number, closure_number,
}
pub use Registry.*
pub use Artifacts.*
pub use Runs.*
pub use Calls.*
