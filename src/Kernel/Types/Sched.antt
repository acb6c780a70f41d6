-- ===== src/Kernel/Types/Sched.antt =====
-- The parts of a task that the scheduler and the timers keep. (pkg/bpf/c/vmlinux.h, lines 363 to 592.)
use bouheki.CType.{CType, array, struct, union, end, bits, ◌⨾◌, ◌∶◌}
use bouheki.Kernel.Types.Base.{s64, u32, u64, u8}
use bouheki.Kernel.Types.Locks.{callback_head, list_head, raw_spinlock_t}
use bouheki.Kernel.Types.Scalars.{int, long, pointer, short}

abbrev pub load_weight : CType
load_weight = struct ("weight" ∶ long ⨾ "inv_weight" ∶ u32 ⨾ end)

abbrev pub rb_node : CType
rb_node = struct ("__rb_parent_color" ∶ long ⨾ "rb_right" ∶ pointer ⨾ "rb_left" ∶ pointer ⨾ end)

abbrev pub sched_statistics : CType
sched_statistics = struct (
    "wait_start" ∶ u64
    ⨾ "wait_max" ∶ u64
    ⨾ "wait_count" ∶ u64
    ⨾ "wait_sum" ∶ u64
    ⨾ "iowait_count" ∶ u64
    ⨾ "iowait_sum" ∶ u64
    ⨾ "sleep_start" ∶ u64
    ⨾ "sleep_max" ∶ u64
    ⨾ "sum_sleep_runtime" ∶ s64
    ⨾ "block_start" ∶ u64
    ⨾ "block_max" ∶ u64
    ⨾ "exec_max" ∶ u64
    ⨾ "slice_max" ∶ u64
    ⨾ "nr_migrations_cold" ∶ u64
    ⨾ "nr_failed_migrations_affine" ∶ u64
    ⨾ "nr_failed_migrations_running" ∶ u64
    ⨾ "nr_failed_migrations_hot" ∶ u64
    ⨾ "nr_forced_migrations" ∶ u64
    ⨾ "nr_wakeups" ∶ u64
    ⨾ "nr_wakeups_sync" ∶ u64
    ⨾ "nr_wakeups_migrate" ∶ u64
    ⨾ "nr_wakeups_local" ∶ u64
    ⨾ "nr_wakeups_remote" ∶ u64
    ⨾ "nr_wakeups_affine" ∶ u64
    ⨾ "nr_wakeups_affine_attempts" ∶ u64
    ⨾ "nr_wakeups_passive" ∶ u64
    ⨾ "nr_wakeups_idle" ∶ u64
    ⨾ end)

abbrev pub util_est : CType
util_est = struct ("enqueued" ∶ int ⨾ "ewma" ∶ int ⨾ end)

abbrev pub sched_avg : CType
sched_avg = struct (
    "last_update_time" ∶ u64
    ⨾ "load_sum" ∶ u64
    ⨾ "runnable_sum" ∶ u64
    ⨾ "util_sum" ∶ u32
    ⨾ "period_contrib" ∶ u32
    ⨾ "load_avg" ∶ long
    ⨾ "runnable_avg" ∶ long
    ⨾ "util_avg" ∶ long
    ⨾ "util_est" ∶ util_est
    ⨾ end)

abbrev pub sched_entity : CType
sched_entity = struct (
    "load" ∶ load_weight
    ⨾ "run_node" ∶ rb_node
    ⨾ "group_node" ∶ list_head
    ⨾ "on_rq" ∶ int
    ⨾ "exec_start" ∶ u64
    ⨾ "sum_exec_runtime" ∶ u64
    ⨾ "vruntime" ∶ u64
    ⨾ "prev_sum_exec_runtime" ∶ u64
    ⨾ "nr_migrations" ∶ u64
    ⨾ "statistics" ∶ sched_statistics
    ⨾ "depth" ∶ int
    ⨾ "parent" ∶ pointer
    ⨾ "cfs_rq" ∶ pointer
    ⨾ "my_q" ∶ pointer
    ⨾ "runnable_weight" ∶ long
    ⨾ bits "" 8 64
    ⨾ bits "" 8 64
    ⨾ bits "" 8 64
    ⨾ "avg" ∶ sched_avg
    ⨾ end)

abbrev pub sched_rt_entity : CType
sched_rt_entity = struct (
    "run_list" ∶ list_head
    ⨾ "timeout" ∶ long
    ⨾ "watchdog_stamp" ∶ long
    ⨾ "time_slice" ∶ int
    ⨾ "on_rq" ∶ short
    ⨾ "on_list" ∶ short
    ⨾ "back" ∶ pointer
    ⨾ end)

abbrev pub ktime_t : CType
ktime_t = s64

abbrev pub timerqueue_node : CType
timerqueue_node = struct ("node" ∶ rb_node ⨾ "expires" ∶ ktime_t ⨾ end)

abbrev pub hrtimer : CType
hrtimer = struct (
    "node" ∶ timerqueue_node
    ⨾ "_softexpires" ∶ ktime_t
    ⨾ "function" ∶ pointer
    ⨾ "base" ∶ pointer
    ⨾ "state" ∶ u8
    ⨾ "is_rel" ∶ u8
    ⨾ "is_soft" ∶ u8
    ⨾ "is_hard" ∶ u8
    ⨾ end)

abbrev pub sched_dl_entity : CType
sched_dl_entity = struct (
    "rb_node" ∶ rb_node
    ⨾ "dl_runtime" ∶ u64
    ⨾ "dl_deadline" ∶ u64
    ⨾ "dl_period" ∶ u64
    ⨾ "dl_bw" ∶ u64
    ⨾ "dl_density" ∶ u64
    ⨾ "runtime" ∶ s64
    ⨾ "deadline" ∶ u64
    ⨾ "flags" ∶ int
    ⨾ bits "dl_throttled" 4 1
    ⨾ bits "dl_yielded" 4 1
    ⨾ bits "dl_non_contending" 4 1
    ⨾ bits "dl_overrun" 4 1
    ⨾ "dl_timer" ∶ hrtimer
    ⨾ "inactive_timer" ∶ hrtimer
    ⨾ "pi_se" ∶ pointer
    ⨾ end)

abbrev pub uclamp_se : CType
uclamp_se =
    struct
      (bits "value" 4 11 ⨾ bits "bucket_id" 4 3 ⨾ bits "active" 4 1 ⨾ bits "user_defined" 4 1 ⨾ end)

abbrev pub cpumask : CType
cpumask = struct ("bits" ∶ array long 128 ⨾ end)

abbrev pub cpumask_t : CType
cpumask_t = cpumask

abbrev pub rcu_special : CType
rcu_special = union (
    "b" ∶ struct ("blocked" ∶ u8 ⨾ "need_qs" ∶ u8 ⨾ "exp_hint" ∶ u8 ⨾ "need_mb" ∶ u8 ⨾ end)
    ⨾ "s" ∶ u32
    ⨾ end)

abbrev pub sched_info : CType
sched_info =
    struct
      ("pcount" ∶ long ⨾ "run_delay" ∶ long ⨾ "last_arrival" ∶ long ⨾ "last_queued" ∶ long ⨾ end)

abbrev pub plist_node : CType
plist_node = struct ("prio" ∶ int ⨾ "prio_list" ∶ list_head ⨾ "node_list" ∶ list_head ⨾ end)

abbrev pub vmacache : CType
vmacache = struct ("seqnum" ∶ u64 ⨾ "vmas" ∶ array pointer 4 ⨾ end)

abbrev pub task_rss_stat : CType
task_rss_stat = struct ("events" ∶ int ⨾ "count" ∶ array int 4 ⨾ end)

abbrev pub prev_cputime : CType
prev_cputime = struct ("utime" ∶ u64 ⨾ "stime" ∶ u64 ⨾ "lock" ∶ raw_spinlock_t ⨾ end)

abbrev pub rb_root : CType
rb_root = struct ("rb_node" ∶ pointer ⨾ end)

abbrev pub rb_root_cached : CType
rb_root_cached = struct ("rb_root" ∶ rb_root ⨾ "rb_leftmost" ∶ pointer ⨾ end)

abbrev pub timerqueue_head : CType
timerqueue_head = struct ("rb_root" ∶ rb_root_cached ⨾ end)

abbrev pub posix_cputimer_base : CType
posix_cputimer_base = struct ("nextevt" ∶ u64 ⨾ "tqhead" ∶ timerqueue_head ⨾ end)

abbrev pub posix_cputimers : CType
posix_cputimers =
    struct
      ("bases" ∶ array posix_cputimer_base 3 ⨾ "timers_active" ∶ int ⨾ "expiry_active" ∶ int ⨾ end)

abbrev pub posix_cputimers_work : CType
posix_cputimers_work = struct ("work" ∶ callback_head ⨾ "scheduled" ∶ int ⨾ end)

abbrev pub sysv_sem : CType
sysv_sem = struct ("undo_list" ∶ pointer ⨾ end)

abbrev pub sysv_shm : CType
sysv_shm = struct ("shm_clist" ∶ list_head ⨾ end)

abbrev pub sigset_t : CType
sigset_t = struct ("sig" ∶ array long 1 ⨾ end)
