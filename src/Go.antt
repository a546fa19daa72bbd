-- ===== src/Go.antt =====
-- What the program uses of Go's standard library: byte strings (package strings), decimal numbers
-- (package strconv, and the verb %d of package fmt), IP addresses (package net) and the encoding of
-- texts (package encoding/json).
pub mod Strings
pub mod Decimal
pub mod Ip
pub mod Json
