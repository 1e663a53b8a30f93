-- ===== src/Js.antt =====
-- The values of the source language that the program passes around untyped (`any`), and the parts
-- of the language and its standard library that it applies to them.
mod Values
mod Json
pub mod Template
mod Text
pub mod Objects
unfoldable pub use Values.*
unfoldable pub use Json.*
unfoldable pub use Template.*
unfoldable pub use Text.*
