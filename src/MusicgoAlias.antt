-- ===== src/MusicgoAlias.antt =====
-- musicgo_alias/: the server that sends a part of an aac or mp3 file in answer to a request.
pub mod Memory
pub mod Request
pub mod Parse
pub mod Sending
pub mod Segment
pub mod Reply
pub mod Answer
mod Examples
