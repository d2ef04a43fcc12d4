-- ===== src/Bindings.antt =====
-- bindings/modulegen__gcc_LP64.py, the script that makes the Python bindings of the point-to-point
-- module, and the list of callbacks beside it.
pub mod Syntax
pub mod Types
pub mod Methods
pub mod Pybindgen
pub mod Register
pub mod Closed
pub mod Run
pub mod Concrete
pub mod Callbacks
mod Tests
