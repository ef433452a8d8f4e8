-- ===== src/Driver.antt =====
-- The Linux block driver (main.c, sawa.c, tcp.c, ramdisk.c): Tcp is its connections, Network its
-- messages to the file server, Queue the requests of the block layer and the work on them.
pub mod Tcp
pub mod Network
pub mod Log
pub mod Digits
pub mod Columns
pub mod Rows
pub mod Ramdisk
pub mod Sending
pub mod Disk
pub mod RoundTrip
pub mod Queue
pub mod Loading
pub mod Interleaving
pub mod Fetching
pub mod Order
pub mod Arrivals
pub mod Draining
pub mod Race
