-- ===== src/Tests.antt =====
-- Concrete inputs, on which the code is run and the theorems are applied.
mod Toy
mod Codecs
mod Runs
mod Streaming
mod Blobs
mod Trees
mod Serving
mod Requests
mod Loads
mod Restored
mod Agents
mod Workers
mod Systems
