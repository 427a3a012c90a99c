-- ===== src/Agent.antt =====
-- packages/sdk/src/agent.ts: creation of agents, and manifests.
pub mod Manifest
pub mod Create
pub mod Visibility
pub mod Wrap
