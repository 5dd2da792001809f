-- ===== src/Lib.antt =====
-- OpenCRun, an OpenCL runtime: the part between the API and the devices. An application's call
-- builds a command, whose arguments the builder of that command checks; a command queue keeps the
-- command, synchronises the memory objects that it names and hands it to the device; the device
-- reports its progress to the command's event, which wakes who waits and notifies callbacks.
--
-- Builder is CommandBuilder of lib/Core/Command.cpp with the wait lists and the checks that the
-- builders share. Its children are the builders of lib/Core/Command.cpp: ReadBuffer, WriteBuffer,
-- CopyBuffer, FillBuffer, MapBuffer, UnmapMemObject, ReadImage, WriteImage, CopyImage,
-- CopyImageToBuffer, CopyBufferToImage (whose shared checks are in ImageBuffers), FillImage,
-- MapImage, KernelRange (EnqueueNDRangeKernelBuilder), ReadBufferRect, WriteBufferRect and
-- CopyBufferRect, each with a record for the builder's fields, new for the constructor, a function
-- for each Set method, create for Create, and build for the chain of calls in
-- tools/libOpenCRun/EnqueueCommand.cpp; Markers has those of markers and barriers, ImageChecks has
-- CheckDevImgSupport and IsValidImgRegion, RectArea the pitches, the places and the overlap of
-- boxes. The early return of a method is a branch of its function, NotifyError replaces the error
-- code, and messages are left out. A pointer of the caller is an option, and a size_t is a number
-- whose sums and products are taken modulo 2^64. Fields that the constructors leave uninitialised
-- hold any value that is given.
--
-- Queue is lib/Core/CommandQueue.cpp. A step is a critical section of the queue's lock: push and
-- schedule are the parts of Enqueue, landed and erased those of CommandDone, and a history is any
-- list of steps. The scheduler reads the statuses of events and the answer of the device from the
-- world of its step. Flush takes fuel; two rounds are enough where it ends. Queue.Sync is
-- ensureMemoryCoherency, as the list of requests that it makes; its child MapWrite runs one of them
-- on a tracker of Coherency.
--
-- Event is lib/Core/Event.cpp, where the monitor makes each call one step; waiting is the condition
-- under which Wait sleeps. Statuses are integers.
--
-- Coherency is MemoryCoherencyTracker of lib/Core/MemoryObject.cpp: Partition has the chunks and
-- addRegion, Transfer the copies between storage areas and updateRegion. Each device and the host
-- have a slot; a storage area maps the bytes of the object to values, and devices that keep their
-- data at the host pointer share the area of the host. A failed assertion is none, and so is the
-- search of a vector without chunks. Of a device only its index in the context is kept, and an
-- index that is not below the number of devices is a device outside. The region of an update lies
-- inside the object, whose size is a size_t, so the sum of its offset and size does not wrap
-- around; addRegion computes this sum modulo 2^64. History lets any list of accesses run on a
-- tracker and relates it to one array of bytes; Begin has what a new tracker stands for. The
-- requests of Queue.Sync are the updates of Coherency; a memory object there and one here are tied
-- by their numbers only.
--
-- Mapping is addMapping, removeMapping, isValidMapping and getNumMappings of
-- lib/Core/MemoryObject.cpp, with one table for each object. Which of the elements with one key the
-- multimap finds is an argument of removeMapping. A position in a mapping has three axes; of a
-- mapping of a buffer the code sets the first alone, and the others hold any values that are given.
-- Builder.MapBuffer and Builder.MapImage take the address that the device hands out for a mapping
-- as an argument, and leave out that it is given back.
--
-- Objects is MemoryObjectBuilder of lib/Core/MemoryObject.cpp with clCreateBuffer and
-- clCreateSubBuffer of tools/libOpenCRun/MemoryObject.cpp; its child Making has create and
-- clCreateBuffer, Regions has clCreateSubBuffer, and Formats and Images have the image formats,
-- setImage and clCreateImage. The members of the builder's union are separate fields, and whether
-- the devices have descriptors for the object and can map them is an argument.
--
-- Dimensions is DimensionInfo of include/opencrun/Util/DimensionInfo.h and its iterator of
-- lib/Util/DimensionInfo.cpp. An unsigned is a number modulo 2^32, and a division by zero is none.
--
-- Devices is the partition of CPU devices: DevicePartition of lib/Core/Device.cpp,
-- InitSubDeviceInfo and isPartitionSupported of lib/Device/CPU/CPUDevice.cpp; its child Creating is
-- createSubDevices with clCreateSubDevices of tools/libOpenCRun/Device.cpp, and ByCounts, Equally
-- and ByDomain have what a call does for each sort of partition. Properties are integers, casts to
-- an unsigned are written out, and reads behind the end of a list, failed assertions and divisions
-- by zero are none.
--
-- Kernel is Kernel::SetArg of lib/Core/Kernel.cpp with clSetKernelArg of
-- tools/libOpenCRun/Kernel.cpp; the kernel that Builder.KernelRange asks is tied to it in
-- Kernel.Unset. Sampler is SamplerBuilder of lib/Core/Sampler.cpp with clCreateSampler of
-- tools/libOpenCRun/Sampler.cpp. RefCount is include/opencrun/Util/MTRefCounted.h, where a history
-- of the calls of all threads is a list.
--
-- Prelude has the tests on numbers, lists and integers that the parts share. Tests has the theorems
-- at concrete inputs.
--
-- Not modelled: which calls retain and release an object, profiling, diagnostics and locks
-- themselves; concurrent updates of one region, which the source leaves undefined; the builder of
-- native kernels; the region that the constructor of a sub-buffer or of an image over a buffer
-- opens in the tracker of its parent, the image entry points of OpenCL 1.1,
-- clGetSupportedImageFormats and the queries of objects; the queries and the creation of kernels,
-- programs, contexts, the list of devices of the platform and the properties of devices that
-- partitions do not use; the compiler passes, the threads of the CPU device with its library, and
-- the tools.
pub mod Prelude
pub mod Coherency
pub mod Event
pub mod Queue
pub mod Builder
pub mod Mapping
pub mod Objects
pub mod Dimensions
pub mod Devices
pub mod Kernel
pub mod RefCount
pub mod Sampler
pub mod Tests
