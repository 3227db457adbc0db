-- ===== src/NameTransform.antt =====
-- internal/nametransform: encrypting, decrypting and hashing file names. A Go string is its bytes.
pub mod Pad16
pub mod Valid
pub mod Base64
pub mod LongNames
pub mod Names
mod Examples
