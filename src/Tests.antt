-- ===== src/Tests.antt =====
-- Runs of the modelled functions, and the theorems at inputs that meet their hypotheses.
mod Arrays
mod Pools
mod Queues
mod Maps
mod Timers
mod Heaps
mod Codecs
mod Texts
mod Digests
mod Ciphers
mod Buffers
