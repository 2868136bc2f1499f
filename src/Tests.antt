-- ===== src/Tests.antt =====
-- The theorems at concrete inputs, by the code that they are about.
mod Memory
mod Processes
mod Files
mod Guards
mod Desktops
mod Boot
mod Buffers
mod Events
mod Windows
mod Blocks
mod Clock
mod Text
mod Descriptors
mod Paging
mod Packets
mod Sockets
