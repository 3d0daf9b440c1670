-- ===== src/Net.antt =====
-- ProperNet/src, whose functions are not written yet: each is a static assertion that fails. What
-- the headers of the parsers and of the byte-order functions fix is modelled; the functions
-- themselves are interfaces that a theorem takes as its parameter. A string is the list of its
-- bytes, without the terminator.
pub mod Bytes
pub mod Reference
pub mod Url
pub mod Http
pub mod ByteOrder
mod Examples
