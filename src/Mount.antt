-- ===== src/Mount.antt =====
-- pkg/bpf/c/restricted-mount.bpf.c: the program on the LSM hook sb_mount. Messages of bpf_printk
-- go to the kernel's trace log and are not modelled.
pub mod Policy
pub mod Event
use bouheki.Prelude.{
  ℕ, ◌+◌, List, [], ◌∷◌, ◌++◌, Option, none, some, Bool, false, true, ◌&&◌, if◌then◌else◌, ◌==◌,
  is_zero, ℤ, pos, neg, replicate,
}
use bouheki.CType.{CType, array, struct, end, ◌⨾◌, ◌∶◌}
use bouheki.Buffer.{Assignment, assign, zeroed, le_bytes, int_pattern}
use bouheki.Kernel.{Kernel, ForEach, Outcome}
use bouheki.Kernel.Types.Base.{u32, u64}
use bouheki.Kernel.Types.Scalars.{char, int}
use bouheki.Common.{mode_monitor, new_uts_len, strcmp, strlen, target_container, task_comm_len}
use bouheki.Common.Container.{current_pid, host_mnt_ns_inum, mnt_ns_inum, nodename, parent_comm}

abbrev pub name_max : ℕ
name_max = 255

-- struct file_path, a value of the two lists of paths: an array of `name_max` bytes
pub record FilePath : Type 0 where
  pub path : List ℕ

-- struct callback_ctx; `source_path` points to the path in the event, whose bytes do not change
pub record CallbackCtx : Type 0 where
  pub source_path : List ℕ
  pub found : Bool

abbrev pub mount_audit_event : CType
mount_audit_event = struct (
    "cgroup" ∶ u64
    ⨾ "pid" ∶ u32
    ⨾ "ret" ∶ int
    ⨾ "nodename" ∶ array char (new_uts_len + 1)
    ⨾ "task" ∶ array char task_comm_len
    ⨾ "parent_task" ∶ array char task_comm_len
    ⨾ "source_path" ∶ array char name_max
    ⨾ end)

-- struct mount_bouheki_config
pub record Config : Type 0 where
  pub mode : ℕ
  pub target : ℕ

-- The maps: a lookup that may miss in the first, the entries of the other in the order in which
-- the kernel visits them.
pub record Maps : Type 0 where
  pub mount_bouheki_config_map : ℕ → Option Config
  pub mount_denied_source_list : List (ℕ × FilePath)

unfoldable pub cb_check_path : ℕ → FilePath → CallbackCtx → ℕ × CallbackCtx
cb_check_path key map_path ctx =
    let size = strlen map_path.path name_max in
    (
      0,
      if is_zero (strcmp map_path.path ctx.source_path size)
          then record ctx { found = true }
          else ctx,
    )

-- `config && config->mode == MODE_MONITOR`
abbrev pub is_monitor : Option Config → Bool
is_monitor none = false
is_monitor (some c) = c.mode == mode_monitor

-- `config && config->target == TARGET_CONTAINER`
abbrev pub only_container : Option Config → Bool
only_container none = false
only_container (some c) = c.target == target_container

-- The source of the mount, `dev_name`, as bpf_probe_read_kernel_str leaves it in the event.
unfoldable pub source_path_of : Kernel → ℕ → List ℕ
source_path_of k dev_name = k.probe_read_kernel_str name_max dev_name (replicate name_max 0)

-- The assignments to the event in front of the search of the list.
unfoldable pub event_of : Kernel → List ℕ → List Assignment
event_of k source_path =
    ("nodename" ∷ [], nodename k)
    ∷ ("cgroup" ∷ [], le_bytes 8 k.current_cgroup_id)
    ∷ ("pid" ∷ [], le_bytes 4 (current_pid k))
    ∷ ("task" ∷ [], k.current_comm task_comm_len)
    ∷ ("parent_task" ∷ [], parent_comm k)
    ∷ ("source_path" ∷ [], source_path)
    ∷ []

-- From the label `out` on.
unfoldable pub out : Option Config → ℕ → List Assignment → ℤ → Outcome
out config inum event ret =
    if only_container config && inum == host_mnt_ns_inum
    then record { ret = pos 0; events = [] }
    else let ret' = if is_monitor config then pos 0 else ret in
      let event' = event ++ ("ret" ∷ [], le_bytes 4 (int_pattern ret')) ∷ [] in
      record {
        ret = ret';
        events = assign mount_audit_event event' (zeroed mount_audit_event) ∷ [];
      }

-- The arguments of the hook that the program does not read are left out.
unfoldable pub restricted_mount :
    (k : Kernel) (for_each : ForEach FilePath CallbackCtx) (m : Maps) (dev_name : ℕ) → Outcome
restricted_mount k for_each m dev_name =
    let config = m.mount_bouheki_config_map 0 in
    let inum = mnt_ns_inum k in
    let source_path = source_path_of k dev_name in
    let event = event_of k source_path in
    let cb =
      for_each.call m.mount_denied_source_list cb_check_path
        (record { source_path = source_path; found = false }) in
    if cb.found then out config inum event (neg k.eperm) else out config inum event (pos 0)
