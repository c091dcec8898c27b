-- ===== src/Tests.antt =====
-- Runs of the code on concrete input, and the theorems at concrete values.
mod Stun
mod Relay
mod Dns
mod Discovery
mod Config
mod Crypto
mod WireGuard
mod Dashboard
mod Main
