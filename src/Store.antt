-- ===== src/Store.antt =====
-- `JobStore` of src/store/store.cpp: the columns of a job, the tables, and the write-behind buffer.
pub mod Columns
pub mod Buffer
pub mod Newest
pub mod Reads
pub mod Entering
pub mod Leaving
pub mod Refinement
pub mod Acknowledge
pub mod Drain
pub mod Failures
pub mod Queries
