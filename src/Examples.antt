-- ===== src/Examples.antt =====
-- Concrete inputs on which the theorems are applied.
mod Streams
mod Payloads
mod Sessions
mod Segments
mod Events
mod Transports
mod Trust
mod Trusted
mod Addresses
mod Documents
mod Desks
