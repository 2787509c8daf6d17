-- ===== src/Kcut.antt =====
-- examples/kcuttest: the tests of kernel shortcuts, and the shortcut calls of a TCP connection.
pub mod Threads
pub mod Shortcut
pub mod Program
pub mod StackTest
pub mod NewProgram
mod Tests
