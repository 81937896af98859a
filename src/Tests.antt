-- ===== src/Tests.antt =====
-- The theorems at concrete inputs, one file for each program.
mod Pages
mod Trees
mod Logs
mod Keys
mod Backends
mod Queues
mod Routes
mod Requests
mod Responses
mod Frames
