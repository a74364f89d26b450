-- ===== src/Py.antt =====
-- The parts of the Python standard library that the program calls: methods of `str`, `posixpath`
-- and `urllib.parse`. What runs on the Unicode tables is the parameter `Python` of Py/Tables.antt.
pub mod Str
pub mod Tables
pub mod Posix
pub mod Split
