-- ===== src/ConfigFile.antt =====
-- internal/configfile: the configuration file of a volume, which holds the encrypted master key.
pub mod Flags
pub mod Scrypt
pub mod Settings
pub mod KeyWrap
mod Examples
