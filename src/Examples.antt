-- ===== src/Examples.antt =====
-- The theorems at concrete inputs, and tests of the definitions.
mod Sawa
mod Admin
mod Client
mod Http
mod Towa
mod Machine
mod Main
mod Util
mod Pool
mod Driver
mod System
mod Web
mod Layer
