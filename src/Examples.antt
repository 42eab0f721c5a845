-- ===== src/Examples.antt =====
-- Tests, and theorems applied to small concrete inputs.
mod Objects
mod Groups
mod Flattening
mod Planner
mod Scheduling
mod Running
mod Resizing
mod Draining
mod Hosting
mod Serving
mod Launching
mod Storing
mod Starting
