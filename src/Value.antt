-- ===== src/Value.antt =====
-- The Python values that the code passes on without knowing their type: JSON as `json.loads` gives
-- it, and the options of app.config. Floats and other objects are not modelled.
mod Data
mod Equality
pub mod Laws
pub mod Reflexivity
unfoldable pub use Data.*
unfoldable pub use Equality.*
