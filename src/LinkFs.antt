-- ===== src/LinkFs.antt =====
-- fs: TecnicoFS with hard and symbolic links and a lock for each table, inode and open file.
pub mod Types
pub mod State
pub mod Tables
pub mod Operations
pub mod Transfer
pub mod Refs
pub mod Valid
pub mod Calls
pub mod Update
pub mod Link
pub mod Unlink
pub mod UnlinkLaws
pub mod LinkLaws
pub mod Follow
pub mod Open
pub mod OpenLaws
pub mod Create
pub mod CreateLaws
pub mod Created
pub mod Example
mod Tests
mod Witnesses
pub mod SymLink
pub mod SymLinkLaws
pub mod SymLinked
pub mod Init
