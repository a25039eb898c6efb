-- ===== src/Rotator.antt =====
-- rotator/: the PHP extension that builds a playlist from folders of tracks.
pub mod Zend
pub mod Timer
pub mod State
pub mod Rules
pub mod History
pub mod Order
pub mod Folders
pub mod Playlist
mod Examples
