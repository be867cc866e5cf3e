-- ===== src/Config.antt =====
-- internal/config: the environment, read and validated at startup.
pub mod Parser
pub mod Load
pub mod Settings
pub mod Valid
