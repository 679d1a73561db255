-- ===== src/Tests.antt =====
-- Runs of the models at concrete inputs, and the theorems at inputs that meet their hypotheses.
mod Streams
mod Paths
mod Queue
mod Options
mod Contents
mod Requests
mod Places
mod Files
mod Server
mod Directories
