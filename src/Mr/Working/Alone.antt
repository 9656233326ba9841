-- ===== src/Mr/Working/Alone.antt =====
-- mr/worker.go with mr/coordinator.go: one worker does all the tasks.
use dist_kv_raft.Common.{nat_eq}
