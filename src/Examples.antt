-- ===== src/Examples.antt =====
-- The theorems of the components at concrete inputs, and runs of the operations.
mod Bitmaps
mod Devices
mod Inodes
mod KernelLists
mod Locks
mod RwLocks
mod Intqs
mod Divisions
mod Words
mod Files
mod InodeTables
mod FreeMaps
mod Memories
mod Hashes
mod Sorts
mod Directories
mod Pages
mod Printing
mod Shells
mod Randoms
mod Threads
mod Archives
mod Programs
