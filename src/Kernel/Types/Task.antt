-- ===== src/Kernel/Types/Task.antt =====
-- struct task_struct. (pkg/bpf/c/vmlinux.h, lines 899 to 1005.)
use bouheki.CType.{CType, Members, array, struct, union, end, bits, ◌⨾◌, ◌∶◌}
use bouheki.Kernel.Types.Base.{__u64, atomic_t, bool, gfp_t, pid_t, size_t, u32, u64}
use bouheki.Kernel.Types.Locks.{
  __call_single_node, callback_head, hlist_head, hlist_node, list_head, raw_spinlock_t, refcount_t,
  restart_block, spinlock_t, thread_info,
}
use bouheki.Kernel.Types.Parts.{
  kmap_ctrl, kuid_t, llist_head, mutex, nodemask_t, page_frag, seccomp, seqcount_spinlock_t,
  sigpending, syscall_user_dispatch, task_io_accounting, tlbflush_unmap_batch, wake_q_node,
}
use bouheki.Kernel.Types.Scalars.{char, int, long, pointer, short}
use bouheki.Kernel.Types.Sched.{
  cpumask_t, plist_node, posix_cputimers, posix_cputimers_work, prev_cputime, rb_node,
  rb_root_cached, rcu_special, sched_dl_entity, sched_entity, sched_info, sched_rt_entity, sigset_t,
  sysv_sem, sysv_shm, task_rss_stat, uclamp_se, vmacache,
}
use bouheki.Kernel.Types.Thread.{thread_struct}

abbrev pub task_struct_from_ptracer_cred : Members
task_struct_from_ptracer_cred =
    "ptracer_cred" ∶ pointer
    ⨾ "real_cred" ∶ pointer
    ⨾ "cred" ∶ pointer
    ⨾ "cached_requested_key" ∶ pointer
    ⨾ "comm" ∶ array char 16
    ⨾ "nameidata" ∶ pointer
    ⨾ "sysvsem" ∶ sysv_sem
    ⨾ "sysvshm" ∶ sysv_shm
    ⨾ "last_switch_count" ∶ long
    ⨾ "last_switch_time" ∶ long
    ⨾ "fs" ∶ pointer
    ⨾ "files" ∶ pointer
    ⨾ "io_uring" ∶ pointer
    ⨾ "nsproxy" ∶ pointer
    ⨾ "signal" ∶ pointer
    ⨾ "sighand" ∶ pointer
    ⨾ "blocked" ∶ sigset_t
    ⨾ "real_blocked" ∶ sigset_t
    ⨾ "saved_sigmask" ∶ sigset_t
    ⨾ "pending" ∶ sigpending
    ⨾ "sas_ss_sp" ∶ long
    ⨾ "sas_ss_size" ∶ size_t
    ⨾ "sas_ss_flags" ∶ int
    ⨾ "task_works" ∶ pointer
    ⨾ "audit_context" ∶ pointer
    ⨾ "loginuid" ∶ kuid_t
    ⨾ "sessionid" ∶ int
    ⨾ "seccomp" ∶ seccomp
    ⨾ "syscall_dispatch" ∶ syscall_user_dispatch
    ⨾ "parent_exec_id" ∶ u64
    ⨾ "self_exec_id" ∶ u64
    ⨾ "alloc_lock" ∶ spinlock_t
    ⨾ "pi_lock" ∶ raw_spinlock_t
    ⨾ "wake_q" ∶ wake_q_node
    ⨾ "pi_waiters" ∶ rb_root_cached
    ⨾ "pi_top_task" ∶ pointer
    ⨾ "pi_blocked_on" ∶ pointer
    ⨾ "journal_info" ∶ pointer
    ⨾ "bio_list" ∶ pointer
    ⨾ "plug" ∶ pointer
    ⨾ "reclaim_state" ∶ pointer
    ⨾ "backing_dev_info" ∶ pointer
    ⨾ "io_context" ∶ pointer
    ⨾ "capture_control" ∶ pointer
    ⨾ "ptrace_message" ∶ long
    ⨾ "last_siginfo" ∶ pointer
    ⨾ "ioac" ∶ task_io_accounting
    ⨾ "psi_flags" ∶ int
    ⨾ "acct_rss_mem1" ∶ u64
    ⨾ "acct_vm_mem1" ∶ u64
    ⨾ "acct_timexpd" ∶ u64
    ⨾ "mems_allowed" ∶ nodemask_t
    ⨾ "mems_allowed_seq" ∶ seqcount_spinlock_t
    ⨾ "cpuset_mem_spread_rotor" ∶ int
    ⨾ "cpuset_slab_spread_rotor" ∶ int
    ⨾ "cgroups" ∶ pointer
    ⨾ "cg_list" ∶ list_head
    ⨾ "closid" ∶ u32
    ⨾ "rmid" ∶ u32
    ⨾ "robust_list" ∶ pointer
    ⨾ "compat_robust_list" ∶ pointer
    ⨾ "pi_state_list" ∶ list_head
    ⨾ "pi_state_cache" ∶ pointer
    ⨾ "futex_exit_mutex" ∶ mutex
    ⨾ "futex_state" ∶ int
    ⨾ "perf_event_ctxp" ∶ array pointer 2
    ⨾ "perf_event_mutex" ∶ mutex
    ⨾ "perf_event_list" ∶ list_head
    ⨾ "mempolicy" ∶ pointer
    ⨾ "il_prev" ∶ short
    ⨾ "pref_node_fork" ∶ short
    ⨾ "numa_scan_seq" ∶ int
    ⨾ "numa_scan_period" ∶ int
    ⨾ "numa_scan_period_max" ∶ int
    ⨾ "numa_preferred_nid" ∶ int
    ⨾ "numa_migrate_retry" ∶ long
    ⨾ "node_stamp" ∶ u64
    ⨾ "last_task_numa_placement" ∶ u64
    ⨾ "last_sum_exec_runtime" ∶ u64
    ⨾ "numa_work" ∶ callback_head
    ⨾ "numa_group" ∶ pointer
    ⨾ "numa_faults" ∶ pointer
    ⨾ "total_numa_faults" ∶ long
    ⨾ "numa_faults_locality" ∶ array long 3
    ⨾ "numa_pages_migrated" ∶ long
    ⨾ "rseq" ∶ pointer
    ⨾ "rseq_sig" ∶ u32
    ⨾ "rseq_event_mask" ∶ long
    ⨾ "tlb_ubc" ∶ tlbflush_unmap_batch
    ⨾ "" ∶ union ("rcu_users" ∶ refcount_t ⨾ "rcu" ∶ callback_head ⨾ end)
    ⨾ "splice_pipe" ∶ pointer
    ⨾ "task_frag" ∶ page_frag
    ⨾ "delays" ∶ pointer
    ⨾ "nr_dirtied" ∶ int
    ⨾ "nr_dirtied_pause" ∶ int
    ⨾ "dirty_paused_when" ∶ long
    ⨾ "timer_slack_ns" ∶ u64
    ⨾ "default_timer_slack_ns" ∶ u64
    ⨾ "curr_ret_stack" ∶ int
    ⨾ "curr_ret_depth" ∶ int
    ⨾ "ret_stack" ∶ pointer
    ⨾ "ftrace_timestamp" ∶ long
    ⨾ "trace_overrun" ∶ atomic_t
    ⨾ "tracing_graph_pause" ∶ atomic_t
    ⨾ "trace" ∶ long
    ⨾ "trace_recursion" ∶ long
    ⨾ "memcg_in_oom" ∶ pointer
    ⨾ "memcg_oom_gfp_mask" ∶ gfp_t
    ⨾ "memcg_oom_order" ∶ int
    ⨾ "memcg_nr_pages_over_high" ∶ int
    ⨾ "active_memcg" ∶ pointer
    ⨾ "throttle_queue" ∶ pointer
    ⨾ "utask" ∶ pointer
    ⨾ "sequential_io" ∶ int
    ⨾ "sequential_io_avg" ∶ int
    ⨾ "kmap_ctrl" ∶ kmap_ctrl
    ⨾ "pagefault_disabled" ∶ int
    ⨾ "oom_reaper_list" ∶ pointer
    ⨾ "stack_vm_area" ∶ pointer
    ⨾ "stack_refcount" ∶ refcount_t
    ⨾ "patch_state" ∶ int
    ⨾ "security" ∶ pointer
    ⨾ "mce_vaddr" ∶ pointer
    ⨾ "mce_kflags" ∶ __u64
    ⨾ "mce_addr" ∶ u64
    ⨾ bits "mce_ripv" 8 1
    ⨾ bits "mce_whole_page" 8 1
    ⨾ bits "__mce_reserved" 8 62
    ⨾ "mce_kill_me" ∶ callback_head
    ⨾ "kretprobe_instances" ∶ llist_head
    ⨾ bits "" 8 64
    ⨾ bits "" 8 64
    ⨾ bits "" 8 64
    ⨾ bits "" 8 64
    ⨾ bits "" 8 64
    ⨾ bits "" 8 64
    ⨾ bits "" 8 64
    ⨾ "thread" ∶ thread_struct
    ⨾ end

abbrev pub task_struct : CType
task_struct = struct (
    "thread_info" ∶ thread_info
    ⨾ "state" ∶ long
    ⨾ "stack" ∶ pointer
    ⨾ "usage" ∶ refcount_t
    ⨾ "flags" ∶ int
    ⨾ "ptrace" ∶ int
    ⨾ "on_cpu" ∶ int
    ⨾ "wake_entry" ∶ __call_single_node
    ⨾ "cpu" ∶ int
    ⨾ "wakee_flips" ∶ int
    ⨾ "wakee_flip_decay_ts" ∶ long
    ⨾ "last_wakee" ∶ pointer
    ⨾ "recent_used_cpu" ∶ int
    ⨾ "wake_cpu" ∶ int
    ⨾ "on_rq" ∶ int
    ⨾ "prio" ∶ int
    ⨾ "static_prio" ∶ int
    ⨾ "normal_prio" ∶ int
    ⨾ "rt_priority" ∶ int
    ⨾ "sched_class" ∶ pointer
    ⨾ bits "" 8 64
    ⨾ bits "" 8 64
    ⨾ bits "" 8 64
    ⨾ bits "" 8 64
    ⨾ bits "" 8 64
    ⨾ bits "" 8 64
    ⨾ bits "" 8 64
    ⨾ "se" ∶ sched_entity
    ⨾ "rt" ∶ sched_rt_entity
    ⨾ "sched_task_group" ∶ pointer
    ⨾ "dl" ∶ sched_dl_entity
    ⨾ "uclamp_req" ∶ array uclamp_se 2
    ⨾ "uclamp" ∶ array uclamp_se 2
    ⨾ "preempt_notifiers" ∶ hlist_head
    ⨾ "btrace_seq" ∶ int
    ⨾ "policy" ∶ int
    ⨾ "nr_cpus_allowed" ∶ int
    ⨾ "cpus_ptr" ∶ pointer
    ⨾ "cpus_mask" ∶ cpumask_t
    ⨾ "migration_pending" ∶ pointer
    ⨾ "migration_disabled" ∶ short
    ⨾ "migration_flags" ∶ short
    ⨾ "trc_reader_nesting" ∶ int
    ⨾ "trc_ipi_to_cpu" ∶ int
    ⨾ "trc_reader_special" ∶ rcu_special
    ⨾ "trc_reader_checked" ∶ bool
    ⨾ "trc_holdout_list" ∶ list_head
    ⨾ "sched_info" ∶ sched_info
    ⨾ "tasks" ∶ list_head
    ⨾ "pushable_tasks" ∶ plist_node
    ⨾ "pushable_dl_tasks" ∶ rb_node
    ⨾ "mm" ∶ pointer
    ⨾ "active_mm" ∶ pointer
    ⨾ "vmacache" ∶ vmacache
    ⨾ "rss_stat" ∶ task_rss_stat
    ⨾ "exit_state" ∶ int
    ⨾ "exit_code" ∶ int
    ⨾ "exit_signal" ∶ int
    ⨾ "pdeath_signal" ∶ int
    ⨾ "jobctl" ∶ long
    ⨾ "personality" ∶ int
    ⨾ bits "sched_reset_on_fork" 4 1
    ⨾ bits "sched_contributes_to_load" 4 1
    ⨾ bits "sched_migrated" 4 1
    ⨾ bits "sched_psi_wake_requeue" 4 1
    ⨾ bits "" 4 28
    ⨾ bits "sched_remote_wakeup" 4 1
    ⨾ bits "in_execve" 4 1
    ⨾ bits "in_iowait" 4 1
    ⨾ bits "restore_sigmask" 4 1
    ⨾ bits "in_user_fault" 4 1
    ⨾ bits "no_cgroup_migration" 4 1
    ⨾ bits "frozen" 4 1
    ⨾ bits "use_memdelay" 4 1
    ⨾ bits "in_memstall" 4 1
    ⨾ "atomic_flags" ∶ long
    ⨾ "restart_block" ∶ restart_block
    ⨾ "pid" ∶ pid_t
    ⨾ "tgid" ∶ pid_t
    ⨾ "stack_canary" ∶ long
    ⨾ "real_parent" ∶ pointer
    ⨾ "parent" ∶ pointer
    ⨾ "children" ∶ list_head
    ⨾ "sibling" ∶ list_head
    ⨾ "group_leader" ∶ pointer
    ⨾ "ptraced" ∶ list_head
    ⨾ "ptrace_entry" ∶ list_head
    ⨾ "thread_pid" ∶ pointer
    ⨾ "pid_links" ∶ array hlist_node 4
    ⨾ "thread_group" ∶ list_head
    ⨾ "thread_node" ∶ list_head
    ⨾ "vfork_done" ∶ pointer
    ⨾ "set_child_tid" ∶ pointer
    ⨾ "clear_child_tid" ∶ pointer
    ⨾ "utime" ∶ u64
    ⨾ "stime" ∶ u64
    ⨾ "gtime" ∶ u64
    ⨾ "prev_cputime" ∶ prev_cputime
    ⨾ "nvcsw" ∶ long
    ⨾ "nivcsw" ∶ long
    ⨾ "start_time" ∶ u64
    ⨾ "start_boottime" ∶ u64
    ⨾ "min_flt" ∶ long
    ⨾ "maj_flt" ∶ long
    ⨾ "posix_cputimers" ∶ posix_cputimers
    ⨾ "posix_cputimers_work" ∶ posix_cputimers_work
    ⨾ task_struct_from_ptracer_cred)
