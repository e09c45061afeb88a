-- ===== src/Klib.antt =====
-- kernel/lib and kernel/include/lib
pub mod Bits
pub mod Calendar
pub mod LinkedList
pub mod Queue
pub mod RwLock
pub mod Strings
mod Tests
