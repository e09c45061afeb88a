-- ===== src/Mm.antt =====
-- kernel/mm
pub mod Buddy
pub mod Slab
pub mod Kvm
pub mod Uvm
pub mod Blocks
