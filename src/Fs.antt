-- ===== src/Fs.antt =====
-- The file system (src/fs): inodes, directories, pipes, open files, the block device, bitmaps and the block cache.
pub mod Pipe
pub mod Inode
pub mod Dir
pub mod Path
pub mod File
pub mod Disk
pub mod Bitmap
pub mod Cache
