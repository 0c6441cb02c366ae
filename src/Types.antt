-- ===== src/Types.antt =====
-- The policy resource: api/v1alpha1/namespacelifecyclepolicy_types.go.
-- A text type with named constants is a data type of them. `other` is any further text, which the
-- resource's validation rules out and the code still has to answer. An int32 or int64 field that
-- validation keeps non-negative is a natural number, a duration or a time counts nanoseconds, a
-- pointer is an `Option`, and a map is a `Dict`.
mod Signals
mod Configs
mod Specs
mod Statuses
mod Policies
pub use Signals.*
pub use Configs.*
pub use Specs.*
pub use Statuses.*
pub use Policies.*
