-- ===== src/Value.antt =====
-- JSON values and the conversions that the program applies to them.
mod Data
mod Text
pub use Data.*
unfoldable pub use Text.{str, to_int, to_dict, str_int, join, repr_text}
unfoldable pub use Data.{truthy, get_value, or_else}
