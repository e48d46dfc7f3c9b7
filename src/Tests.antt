-- ===== src/Tests.antt =====
-- Runs of the models on concrete inputs, the program's own unit tests among them, and the theorems
-- applied at concrete inputs.
mod Frames
mod Filter
mod Keyboard
mod Queue
mod Daemon
mod Clients
mod Attach
mod Loop
mod Commands
mod System
mod Typing
mod Terminal
mod Start
mod Leaving
mod Ending
