-- ===== src/Types.antt =====
-- types.rs
pub mod Blob
pub mod VarU32
pub mod U8
pub mod U16
pub mod U32
pub mod Utf8
pub mod StrOrd
pub mod Text
pub mod Topic
pub mod Written
pub mod Protocol
pub mod Safe
