-- ===== src/Js.antt =====
-- The parts of the JavaScript language that the program's text and number handling rests on.
pub mod Value
pub mod Space
pub mod Decimal
pub mod BigInt
pub mod Number
pub mod Join
pub mod Dictionary
