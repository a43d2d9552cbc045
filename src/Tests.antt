-- ===== src/Tests.antt =====
-- Sample nodes, files and messages, and runs of the model on them.
pub mod Samples
pub mod Files
pub mod Nodes
pub mod Wire
pub mod Servers
pub mod Rounds
pub mod Events
pub mod Polls
pub mod Cli
pub mod Start
