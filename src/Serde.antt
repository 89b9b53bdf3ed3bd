-- ===== src/Serde.antt =====
-- lib/sd: the serializer: basic types, classes and compressed pointers, the walker and the reviver of the
-- host, and the serializer of the kernel.
pub mod Types
pub mod TypeLaws
pub mod Pointer
pub mod PointerLaws
pub mod Classes
pub mod RwBuffer
pub mod FakeObject
pub mod Info
pub mod Walker
pub mod Value
pub mod Wire
pub mod RwBufferLaws
pub mod WireFrame
pub mod WalkLaws
pub mod WalkArrays
pub mod WalkObject
pub mod WalkNodes
pub mod WalkWire
pub mod Rebuild
pub mod ParseLaws
pub mod ParseNodes
pub mod ParseParts
pub mod ParseWire
pub mod RoundTrip
pub mod DeviceBuffer
pub mod Serialize
pub mod Mirror
pub mod MirrorFill
pub mod MirrorWalk
pub mod MirrorObject
pub mod SerializeRuns
pub mod MirrorClass
pub mod MirrorOutput
pub mod MirrorRun
pub mod Offload
pub mod OffloadLaws
pub mod OffloadTests
pub mod Cycle
pub mod CycleTests
pub mod KernelToHost
pub mod KernelTests
pub mod Reviver
pub mod ClassLaws
pub mod ClassTables
pub mod StreamTests
pub mod Tests
