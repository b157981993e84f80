-- ===== src/Tfs.antt =====
-- fs2: TecnicoFS, the file system that mbroker is linked with, under its global mutex.
pub mod Types
pub mod State
pub mod Alloc
pub mod Operations
pub mod Valid
pub mod Handles
pub mod Directory
pub mod DirUpdate
pub mod DirCalls
pub mod Steps
pub mod Open
pub mod StepInv
pub mod OpenLaws
pub mod Reopen
pub mod Unlink
pub mod Write
pub mod WriteLaws
pub mod Contents
pub mod Init
pub mod Read
pub mod RoundTrip
mod Tests
pub mod Witnesses
