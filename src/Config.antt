-- ===== src/Config.antt =====
-- src/config/config.c: the configuration files of server and client. The build's limits and features
-- are a parameter; the model is that of a build for POSIX.
pub mod Build
pub mod Values
pub mod Options
pub mod Validate
pub mod Reader
pub mod Load
pub mod Authorized
mod Tests
