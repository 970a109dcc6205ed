-- ===== src/Statsd.antt =====
-- The plain statsd sampler, src/samplers/statsd.c: the parser of a number, of a message and of a
-- packet.
pub mod Number
pub mod Message
mod Tests
