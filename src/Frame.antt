-- ===== src/Frame.antt =====
-- rsocket/frame.py
pub mod Codes
pub mod Slots
pub mod Parse
pub mod Serialize
pub mod Header
pub mod Contents
pub mod Prefix
pub mod Sendable
pub mod Written
pub mod Read
pub mod ReadSetup
pub mod RoundTrip
pub mod Fragmenting
pub mod Errors
