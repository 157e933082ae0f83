-- ===== src/Codec/Output.antt =====
-- What an encoder of src/ua_types_encoding_binary.c writes: the names of the children, passed on.
mod Contract
mod Sequence
mod Exchange
pub use Contract.*
pub use Sequence.*
pub use Exchange.*
