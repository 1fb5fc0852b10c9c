-- ===== src/Proxy.antt =====
-- src/opentracker/proxy.c: the program that carries announcements between networks of trackers.
pub mod Stream
pub mod Handshake
pub mod Relay
