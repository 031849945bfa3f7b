-- ===== src/Examples.antt =====
-- Tests on concrete inputs, and the theorems of the library applied to some.
mod Codec
mod Data
mod Packets
mod Sockets
mod Registered
mod Served
mod Windows
mod Desktops
mod Startups
mod Threads
mod Streams
mod Messages
mod Answers
