-- ===== src/Console.antt =====
-- kern/console.c: keyboard and serial input through one ring, and output to the screen.
pub mod Keys
pub mod Input
pub mod Queue
pub mod Getchar
pub mod Screen
pub mod Scroll
mod Tests
