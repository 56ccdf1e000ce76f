-- ===== src/Python.antt =====
-- src/py.rs: the binding for Python. What the interpreter does, a call of a callable, whether it is
-- up, whether a signal came, is an argument; the objects that the binding makes are values.
pub mod Messages
pub mod Waiting
pub mod Handler
pub mod Buffers
pub mod Supervising
pub mod Calls
pub mod Observing
mod Tests
