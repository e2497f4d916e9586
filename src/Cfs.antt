-- ===== src/Cfs.antt =====
-- The control node's file system, c_node/fs/cfs.c.
mod Tests
pub mod State
pub mod Meta
pub mod Entry
pub mod Block
pub mod Perm
pub mod Fat
pub mod Init
pub mod Disk
pub mod Dir
pub mod Path
pub mod Parent
pub mod Query
pub mod Create
pub mod Delete
pub mod Move
pub mod Blocks
