-- ===== src/Python.antt =====
-- The part of Python that the programs use: exceptions as results, JSON values and their access,
-- integers from text, UTF-8, base64, and `json.dumps`.
pub mod Errors
pub mod Json
pub mod Exec
pub mod Numeral
pub mod Base64
pub mod Dumps
pub mod Format
pub mod Loads
