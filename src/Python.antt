-- ===== src/Python.antt =====
-- What the modelled files use of Python and its standard library: values of `json`, texts,
-- numbers, times and `sorted`. Each child is one of these.
pub mod Text
pub mod Number
pub mod Value
pub mod Time
pub mod Sorting
