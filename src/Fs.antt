-- ===== src/Fs.antt =====
-- The read-only file system of kernel/fs: path names, the inode table and the buffer cache.
pub mod PathName
pub mod Bio
pub mod Files
pub mod Inode
