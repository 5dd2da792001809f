-- ===== src/Coherency.antt =====
-- MemoryCoherencyTracker (lib/Core/MemoryObject.cpp and include/opencrun/Core/MemoryObject.h): the
-- partition of a memory object into chunks, the validity bits of each chunk, and the copies between
-- the devices and the host that bring a region up to date.
pub mod Partition
pub mod Transfer
pub mod Tiling
pub mod Marks
pub mod Content
pub mod Moving
pub mod Region
pub mod Edges
pub mod Chunks
pub mod Splits
pub mod Points
pub mod AddRegion
pub mod Progress
pub mod Initial
pub mod StaleHost
pub mod History
pub mod Begin
