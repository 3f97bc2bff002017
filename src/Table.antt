-- ===== src/Table.antt =====
-- daemon/table: the tables of the forwarder.
pub mod DeadNonceList
pub mod Pit
pub mod PitTable
pub mod FibTable
pub mod Cleanup
pub mod Fib
pub mod Cs
