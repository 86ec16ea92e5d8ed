-- ===== src/Mpi.antt =====
-- src/backend/mpi: the MPI backend.
pub mod Types
pub mod Bigcount
pub mod Signal
pub mod Manager
pub mod Device
pub mod Post
pub mod Progress
pub mod Init
pub mod Table
pub mod Frame
pub mod Ledger
pub mod History
pub mod Tally
pub mod Throttle
pub mod Produce
pub mod Put
