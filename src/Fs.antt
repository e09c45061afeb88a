-- ===== src/Fs.antt =====
-- kernel/fs
pub mod Ext2
pub mod FdTable
