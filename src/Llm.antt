-- ===== src/Llm.antt =====
-- src/computecloud_node/llm: the shard executor for real model layers.
pub mod KvCache
pub mod Weights
pub mod Hub
pub mod Local
pub mod ModelShard
pub mod Uri
pub mod Loader
pub mod Executor
