-- ===== src/Toon.antt =====
-- The TOON encoder of tool results, src/utils/toon-encoder.ts.
mod Values
mod Surrogates
mod Utf16
mod Strings
pub mod Columns
mod Lines
mod Encoder
mod Reader
mod Quoted
mod Bare
mod Rows
mod Fits
mod Tables
mod Breaks
mod Headers
mod Framed
mod Document
mod Frames
mod Decimals
mod Tests
