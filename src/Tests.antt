-- ===== src/Tests.antt =====
-- Examples: the theorems at concrete states of the system.
mod World
mod Store
mod Clock
mod Threads
mod Loader
mod Display
mod Devices
mod Service
mod Readings
