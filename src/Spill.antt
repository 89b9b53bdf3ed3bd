-- ===== src/Spill.antt =====
-- lib/native: partition buffers, the agent that fills them, and the workers that write them to files.
pub mod Buffer
pub mod BufferLaws
pub mod Agent
pub mod AgentLaws
pub mod AgentCalls
pub mod AgentHistory
pub mod AgentRecords
pub mod Files
pub mod FileOrder
pub mod FileContents
pub mod FileRuns
pub mod FileSetup
pub mod Direct
pub mod DirectLaws
pub mod Requests
pub mod Shuffle
pub mod ShuffleLaws
pub mod DispatchLaws
pub mod Disk
pub mod DiskLaws
pub mod Tests
