-- ===== src/Memory.antt =====
-- The memory hierarchy: src/memory. Both memories answer `memory_access_error` out of range.
pub mod Ram
pub mod Disk
pub mod Cache
pub mod Store
pub mod Manager
