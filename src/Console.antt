-- ===== src/Console.antt =====
-- drivers/text_console.c and drivers/text_console.h: the text console.
pub mod Config
pub mod Screen
pub mod Draw
pub mod Legal
pub mod Content
pub mod Typing
pub mod Driver
pub mod Api
pub mod Locks
pub mod Sems
pub mod Ready
pub mod Fresh
pub mod Init
pub mod Session
pub mod Terminals
pub mod Refine
pub mod Calls
pub mod Switch
mod Tests
