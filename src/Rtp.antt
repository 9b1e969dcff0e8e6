-- ===== src/Rtp.antt =====
-- RTP packets for H.264: headers, the packetiser of the senders and the receivers' decoder.
pub mod Bytes
pub mod Header
pub mod Send
pub mod Decode
pub mod Fragments
pub mod RoundTrip
pub mod Numbering
pub mod Related
