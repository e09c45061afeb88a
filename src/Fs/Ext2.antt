-- ===== src/Fs/Ext2.antt =====
-- kernel/fs/ext2
pub mod Bitmap
pub mod Layers
pub mod Directory
mod Tests
