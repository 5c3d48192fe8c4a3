-- ===== src/Db.antt =====
-- `DbManager` of server/src/db_manager: its state, its methods as programs over shared memory and
-- mutexes, the bank that they implement, and the proofs.
pub mod State
pub mod Program
pub mod Methods
pub mod Bank
pub mod Idle
pub mod Refinement
pub mod Threads
pub mod Calls
pub mod Payments
