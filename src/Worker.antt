-- ===== src/Worker.antt =====
-- app/worker.py: the worker's imports, its export buffer and its migration batch.
pub mod Import
pub mod Queue
pub mod Buffer
pub mod Modes
mod Examples
