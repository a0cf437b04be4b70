-- ===== src/Config.antt =====
-- config and util/expand: the parts of the agent's configuration that the rest of the program reads.
pub mod Security
pub mod Expand
pub mod Settings
pub mod Tags
