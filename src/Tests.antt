-- ===== src/Tests.antt =====
-- Runs of the code under src/voip/src/domain on concrete inputs, and each theorem at one of them.
pub mod Control
pub mod Stream
pub mod Rtp
pub mod Reflector
pub mod Signaling
pub mod Jitter
pub mod Session
pub mod Crypto
pub mod Dtls
pub mod Packet
pub mod Stun
pub mod Ice
pub mod Turn
pub mod Candidate
pub mod Handshake
