-- ===== src/Logger.antt =====
-- logger/: the daemon that collects the messages of the streamers, keeps them in files and mails errors.
pub mod ErrorMonitor
pub mod Message
pub mod Client
pub mod Store
pub mod Daemon
pub mod Remote
mod Examples
