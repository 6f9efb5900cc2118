-- ===== src/Golib.antt =====
-- What the program uses of Go's standard library, one module for each package or idiom.
pub mod Endian
pub mod Net
pub mod Reader
pub mod Buffer
pub mod Text
pub mod Strconv
