-- ===== src/Python.antt =====
-- The values of Python that the program computes with: JSON data, and text.
pub mod Text
pub mod Value
pub mod Equality
pub mod Access
pub mod Laws
pub mod Str
