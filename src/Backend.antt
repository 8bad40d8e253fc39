-- ===== src/Backend.antt =====
-- include/voris/io/backend.hpp and src/backend.cpp: operations, completions and the backend that
-- the platform backends build on.
pub mod Operation
pub mod Virtual
pub mod Session
pub mod ExactlyOnce
pub mod Handles
mod Tests
