-- ===== src/Py.antt =====
-- What the program uses of Python: exceptions, JSON values, dictionary access, `int`, `json.dumps`.
pub mod Result
pub mod Value
pub mod Text
pub mod Number
pub mod Json
