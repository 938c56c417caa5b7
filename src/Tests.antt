-- ===== src/Tests.antt =====
-- Runs of the models at concrete inputs, and each theorem at an input where its conditions hold.
mod Image
mod Space
mod Stack
mod Native
mod Link
mod Bound
mod Closure
mod Server
mod Http
mod Handle
mod Exec
mod Pool
mod Start
