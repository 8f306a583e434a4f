-- ===== src/Pipeline.antt =====
-- backend/pipeline: the queue of jobs, the worker, and the stages of a call.
pub mod Queue
pub mod Transitions
pub mod Worker
pub mod Stages
