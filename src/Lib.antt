-- ===== src/Lib.antt =====
-- DShuffle: the serializer's maps, the memory pools, the kernel's memory loops, the spill path and remote calls.
--
-- DShuffle moves the shuffle of a data-parallel job off the JVM: objects are serialized with the help of an
-- accelerator kernel, their records are collected per partition in buffers registered with the device, and
-- the buffers travel through spill agents, shuffle workers and spill workers to the files of the partitions.
-- The library models the parts of that path that compute and keep state; what the DOCA, verbs and io_uring
-- libraries do is a parameter or a result that a definition takes.
--
-- Map: the class map of the serializer.
--   Map/Host         lib/sd/native/map.hxx: MapImpl, with `init`, `add`, `insert_kv`, `lookup_v` and the rest as there
--   Map/Device       lib/doca/kernel/map.h: map_t with `map_add`, `map_insert`, `map_lookup`
--   Map/Chain        the chains through the entries that both share; `search` follows one with fuel of the
--                    capacity and one more, and a chain of a valid map ends within that
--   Map/HostLaws, Map/DeviceLaws   the maps against a function from keys to values
--   An array of a map is a function from its indices; the index bound is the count's.
--
-- Memory: regions, alignment and pools.
--   Memory/Region    lib/memory/memory_region.hxx        Memory/Align  lib/util/upper_align.hxx, lib/doca/kernel/helper.h
--   Memory/Allocator lib/memory/simple_allocator.hxx     Memory/ObjectPool  lib/util/simple_object_pool.hxx
--   Memory/BufferPool  lib/memory/simple_buffer_pool.hxx over lib/memory/naive_buffer.hxx and local_buffer.hxx;
--                    the loop of the constructor of Buffers has fuel of one round more than the region has bytes
--   Memory/Layout, Memory/Count, Memory/PoolHistory   the layout of the pieces, and histories of a pool with clients
--
-- Kernel: lib/doca/kernel/mem.h.
--   Kernel/Copy, Kernel/CopyLaws    d_memcpy      Kernel/Fill, Kernel/FillLaws    d_memset
--   A switch that falls through is a recursion on the case number, the unrolled loop one on its rounds.
--
-- Spill: lib/native.
--   Spill/Buffer     offload.hxx: PartitionBuffer; the header is a field, the bytes behind it are a function
--   Spill/Agent      spill_agent.hxx: SpillAgent. A call that waits for a buffer is cut in two, `append_or_spill`
--                    or `force_spill` and `resume`; `swap` and `complete` are the worker's loop
--   Spill/AgentLaws, AgentCalls, AgentHistory, AgentRecords   the calls from a safe state, and every history
--   Spill/Files      spill_worker.hxx: the partition files and the requests to the ring, as HostSpillWorker and
--                    BufferredHostSpillWorker make them; a disk is a function from descriptors to bytes;
--                    a request stores all its bytes, so a write that the kernel cuts short changes no file here
--   Spill/FileOrder, FileContents, FileRuns, FileSetup   any order of completion, and what the files hold
--   Spill/Direct     spill_worker.hxx: DirectSpillWorker, and Spill/Requests the halves of handle_spill_request
--   Spill/Disk       disk_agent.hxx: DiskAgent over the direct worker
--   Spill/Shuffle    shuffle_worker.hxx: ShuffleWorker on one task, the dispatcher of PipelineShuffleWorkerPool
--
-- Trans: lib/trans.
--   Trans/Endpoint   common/endpoint.hxx: the states of an endpoint
--   Trans/Rpc        common/rpc.hxx and transport.hxx: `call`, `oneway`, `serve_once` and the dispatch of responses
--   Trans/RpcLaws, RpcState, RpcInFlight, RpcCalls, RpcHistory   histories of a caller and a server
--
-- Serde: lib/sd.
--   Serde/Types      common/basic_type.h, native/basic_type.hxx     Serde/Pointer  native/jvm_args.hxx
--   Serde/TypeLaws, PointerLaws, ClassLaws, ClassTables   codes and names, lookups, registration in the tables
--   Serde/Classes    native/class_resolver.hxx, native/class_walker.cxx, kernel/sd.c: the tables of registered
--                    classes; the search of the kernel has fuel of the length of the table and one more
--   Serde/RwBuffer   native/rw_buffer.hxx: the bytes, the size and the offset of a buffer
--   Serde/FakeObject native/fake.hxx over the memory of the JVM     Serde/Info  native/class_info.hxx
--   Serde/Walker     native/object_walker.cxx: one function per function of the code, and one per loop body; `walk`
--                    takes one of the fuel for each level of references, so the depth of a tree is enough. The
--                    conversion of characters by simdutf is a parameter
--   Serde/Reviver    native/object_reviver.cxx, with the same fuel: the calls of JNI are recorded, and their handles
--                    and exceptions are parameters
--   Serde/Value, Wire, Rebuild   the tree of values of an object, its layout in a buffer, the calls that rebuild it
--   Serde/RwBufferLaws, WireFrame, WalkLaws, WalkArrays, WalkObject, WalkNodes, WalkWire   the walker and the layout
--   Serde/ParseLaws, ParseNodes, ParseParts, ParseWire, RoundTrip   the reviver and the layout, and both in a row
--   Serde/DeviceBuffer, Serialize   kernel/sd.c: the serializer of the kernel, from do_serialize down, with the fuel of
--                    the walker. Its memory is one function; the memory of the host is its upper half, as h2d has it
--   Serde/Mirror, MirrorFill, MirrorWalk, MirrorObject, SerializeRuns, MirrorClass, MirrorOutput, MirrorRun   the
--                    kernel's buffer beside the host's
--   Serde/Offload    native/sd.cxx: the array of objects whose elements go to the threads; OffloadLaws its batches
--   Serde/Cycle      the walker on an object that refers to itself
--   Serde/KernelToHost   the kernel's output and the reviver of the host
--   The map of visited objects is commented out in the code, so a shared object is written for each reference.
--
-- Prelude: shared names, Boolean tests, lists, bytes, and `Outcome`, what a C++ call ends in: a value, the
-- exception of `die`, a failed assertion, undefined behaviour, fuel that ran out, or a call that waits.
-- Threads are sequences of steps: each step is a stretch of code under a lock or between two waits.
--
-- Not modelled: devices, connections, the backends of the transport, JNI entry points, logging and sockets, which call other
-- libraries; the walk over the JVM's classes, the threads of the kernel and the rest of sd.cxx;
-- NaiveShuffleWorkerPool and NaiveSpillAgent. Queues between threads are unbounded here.
pub mod Prelude
pub mod Map
pub mod Memory
pub mod Kernel
pub mod Spill
pub mod Trans
pub mod Serde
