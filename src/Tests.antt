-- ===== src/Tests.antt =====
-- Runs of the models at concrete inputs, and an instance of each theorem that has hypotheses.
mod Programming
mod Queue
mod Judge
mod Output
mod IoUtils
mod Worker
mod Choice
mod Mcourse
mod Sicily
mod Feedback
mod Sandbox
mod Forth
mod Cpuset
mod Rabbitmq
mod Guarded
mod Start
mod Watched
