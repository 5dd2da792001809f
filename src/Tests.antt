-- ===== src/Tests.antt =====
-- The theorems at concrete inputs.
mod Coherency
mod Event
mod Queue
pub mod Buffers
mod Rects
mod Images
mod ImageBuffers
mod KernelRange
mod Mapping
mod Dimensions
mod Devices
mod Kernels
mod Objects
