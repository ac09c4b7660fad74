-- ===== src/Pmap.antt =====
-- kern/pmap.c and kern/pmap.h: physical pages and page tables.
pub mod State
pub mod Boot
pub mod Pages
pub mod Tables
pub mod Entry
pub mod Checks
pub mod Setup
mod Tests
