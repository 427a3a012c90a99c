-- ===== src/Tools.antt =====
-- packages/sdk/src/tools: the guards of the stock tools that reach the network, and the calculator.
pub mod Address
pub mod Fetch
