-- ===== src/Text.antt =====
-- include/timix/string-impl.h: the string functions behind lib/str*.c and lib/memset.c, over a
-- memory of bytes. A byte is a number (`char` is taken as unsigned), a loop runs on fuel, and `none`
-- means that the fuel ran out.
pub mod Strings
pub mod Token
pub mod Read
pub mod Write
pub mod Join
pub mod Scan
pub mod Split
pub mod Dup
pub mod Library
mod Tests
