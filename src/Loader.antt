-- ===== src/Loader.antt =====
-- loader/: the programs that open a .self database and start the program in it.
pub mod Db
pub mod Image
pub mod Space
pub mod Stack
pub mod Native
pub mod Selfld
pub mod Audit
pub mod Exec
