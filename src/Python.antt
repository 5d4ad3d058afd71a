-- ===== src/Python.antt =====
-- The Python run time as far as the client uses it: exceptions as results, the values of a decoded
-- JSON payload, conversions between them, and decimal text.
mod Errors
mod Data
mod Convert
pub mod Base64
pub mod Struct
pub mod Dict
pub mod Text
pub mod Float
pub mod Runtime
pub mod Effect
unfoldable pub use Errors.*
unfoldable pub use Data.*
unfoldable pub use Convert.*
