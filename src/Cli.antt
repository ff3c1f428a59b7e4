-- ===== src/Cli.antt =====
-- cli/src: the terminal client, full-screen in tui.cpp and line by line in main.cpp.
pub mod Streams
pub mod Tui
pub mod ChatApp
pub mod Main
