-- ===== src/Accordion/Mpx.antt =====
-- accordion_V10.X/mpx.cpp: the frames of an mp3 file.
pub mod Frame
pub mod Seek
pub mod Stream
pub mod Info
