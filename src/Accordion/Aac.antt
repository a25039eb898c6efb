-- ===== src/Accordion/Aac.antt =====
-- accordion_V10.X/aac.cpp: the frames of an aac file.
pub mod Header
pub mod Seek
pub mod Stream
pub mod Info
