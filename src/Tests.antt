-- ===== src/Tests.antt =====
-- The theorems at concrete inputs, and runs of the code.
mod Displays
mod Files
mod Frames
mod Games
mod Keys
mod Pages
mod Packets
mod Segments
mod Texts
