-- ===== src/Accordion.antt =====
-- accordion_V10.X/: the streamer that sends a playlist of mp3 or aac files to an Icecast server.
pub mod File
pub mod Stream
pub mod Mpx
pub mod Aac
pub mod Playlist
pub mod Url
pub mod Parameters
pub mod Common
mod Examples
