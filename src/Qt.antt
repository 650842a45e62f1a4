-- ===== src/Qt.antt =====
-- qt_wrapper and example: the classes that put a client and a server behind signals, and the window
-- that shows them.
pub mod Client
pub mod Server
pub mod Window
pub mod Buttons
pub mod Signals
mod Tests
