-- ===== src/Workflow.antt =====
-- src/chatterbox_manga_studio/services/workflow_engine.py: the graph of a workflow, and its runs.
pub mod Graph
pub mod Order
pub mod Cycle
pub mod Validation
pub mod Engine
pub mod Execution
pub mod Runs
pub mod Held
pub mod Attempts
pub mod Retries
pub mod Nodes
pub mod Proper
pub mod Batch
pub mod Pending
pub mod Ending
pub mod Resume
pub mod Progress
pub mod Created
pub mod Ready
pub mod Control
mod Samples
mod RunSamples
