-- ===== src/ContentEnc.antt =====
-- internal/contentenc: splitting a file into blocks, and encrypting them.
pub mod Offsets
pub mod IntraBlocks
pub mod Header
pub mod Blocks
mod Examples
