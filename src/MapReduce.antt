-- ===== src/MapReduce.antt =====
-- mr/: the coordinator and the worker of MapReduce; main/mrsequential.go: the same in one process;
-- mrapps/wc.go: an application.
pub mod Coordinator
pub mod Worker
pub mod Files
pub mod Sequential
pub mod Apps
