-- ===== src/Nal.antt =====
-- Finding the NAL units of an H.264 byte stream.
pub mod Copy
pub mod Escaped
pub mod StartCode
pub mod Parse
pub mod Reader
