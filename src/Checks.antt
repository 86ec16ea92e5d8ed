-- ===== src/Checks.antt =====
-- Tests of the definitions, and the theorems at concrete inputs.
mod World
mod Mpi
mod Put
mod Backend
mod Bigcount
mod Spinlock
mod Pcounter
mod Delivery
mod Threads
mod Race
mod Gex
mod Init
mod Pingpong
mod Lci
mod Lci2
mod Fifo
