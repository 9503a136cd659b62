-- ===== src/Text.antt =====
-- Texts as lists of bytes: the comparison and splitting of names, the matcher of setting names, the
-- UTF8 decoder of the serial channels, and the options of a pin.
pub mod Strings
pub mod Regexpr
pub mod Passthrough
pub mod Uri
pub mod Utf8
pub mod PinOptions
pub mod Tokenizer
