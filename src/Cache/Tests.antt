-- ===== src/Cache/Tests.antt =====
-- Concrete inputs for the theorems on the cache.
mod Slots
mod Lists
mod Sweeps
mod Segments
mod Stamps
mod Choices
mod Ghosts
mod Sketches
