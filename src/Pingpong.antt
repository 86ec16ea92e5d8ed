-- ===== src/Pingpong.antt =====
-- examples/pingpong_mt.cpp and examples/comm_exp.hpp: the multithreaded ping-pong benchmark.
pub mod Buffer
pub mod Workers
pub mod Sequence
pub mod Spawn
pub mod Exchange
pub mod CppBarrier
pub mod Waits
pub mod Options
