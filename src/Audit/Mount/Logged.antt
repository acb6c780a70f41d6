-- ===== src/Audit/Mount/Logged.antt =====
-- From pkg/bpf/c/restricted-mount.bpf.c to pkg/audit/mount/audit.go: what user space reads of
-- the event that the program sends.
use bouheki.Prelude.{
  ℕ, ◌≡◌, refl, ap, ◌∙◌, List, [], ◌∷◌, Bool, true, false, ◌&&◌, arith, if◌then◌else◌, is_zero,
  is_zero-neg, ℤ, pos, neg, inr, length,
}
use bouheki.Buffer.{offset_of, size_of}
use bouheki.Buffer.Bytes.{from_le_bytes-le_bytes}
use bouheki.Buffer.Members.{Holds}
use bouheki.Kernel.{Kernel, IsKernel, ForEach, IsForEach}
use bouheki.Common.{task_comm_len}
use bouheki.Common.Container.{current_pid, is_host_mntns, nodename, parent_comm}
use bouheki.Common.Strings.{cstring}
use bouheki.Mount.{
  source_path_of, CallbackCtx, FilePath, Maps, mount_audit_event, is_monitor, only_container,
  restricted_mount,
}
use bouheki.Mount.Policy.{listed, ret-restricted_mount, verdict}
use bouheki.Mount.Event.{reported, restricted_mount-reports}
use bouheki.Audit.Binary.{
  InRange, InRange-if, InRange-unless, InRange-neg, int32-int_pattern, read_enough, take_all,
}
use bouheki.Audit.Mount.{
  AuditLog, decode, new_audit_log, parse_event, path_to_string, ret_to_action,
}

-- The fields that an event of the program stands for.
abbrev pub sent_log : Kernel → List ℕ → ℤ → AuditLog
sent_log k path r = record {
  cgroup_id = k.current_cgroup_id;
  pid = current_pid k;
  ret = r;
  nodename = nodename k;
  command = k.current_comm task_comm_len;
  parent_command = parent_comm k;
  mount_source_path = path;
}

-- A Go struct and a C struct with the same members at the same places.
decode-Holds :
    (k : Kernel) (path : List ℕ) (r : ℤ) (event : List ℕ)
    → IsKernel k
    → InRange r
    → Holds mount_audit_event (reported k path r) event
    → decode event ≡ sent_log k path r
unfolding decode offset_of size_of
decode-Holds k path r event s range held = rw (
  held.1.0,
  held.1.1.0,
  held.1.1.1.1.1.1.0,
  held.0,
  held.1.1.1.0,
  held.1.1.1.1.0,
  held.1.1.1.1.1.0,
  from_le_bytes-le_bytes 8 k.current_cgroup_id s.current_cgroup_id_bound,
  from_le_bytes-le_bytes 4 (current_pid k) (let h = s.current_pid_tgid_bound in omega arith),
  int32-int_pattern r range,
)

parse_event-decode : (event : List ℕ) → length event ≡ 368 → parse_event event ≡ inr (decode event)
unfolding parse_event
parse_event-decode event size =
    rw (read_enough 368 event (omega arith) (omega arith), take_all event 368 size)

path_to_string-eq-cstring : (path : List ℕ) → path_to_string path ≡ cstring path
path_to_string-eq-cstring [] = refl
path_to_string-eq-cstring (c ∷ path) = rw (path_to_string-eq-cstring path)

ret_to_action-verdict :
    (monitor denied : Bool) (e : ℤ)
    → is_zero e ≡ false
    → ret_to_action (if monitor then pos 0 else if denied then e else pos 0)
      ≡ (if monitor then "ALLOWED" else if denied then "BLOCKED" else "ALLOWED")
ret_to_action-verdict true denied e h = refl
ret_to_action-verdict false true e h = rw h
ret_to_action-verdict false false e h = refl

module _ (for_each : ForEach FilePath CallbackCtx) (visits : IsForEach for_each) (k : Kernel)
    (m : Maps) (dev_name : ℕ) where
  ret-InRange : IsKernel k → InRange (restricted_mount k for_each m dev_name).ret
  ret-InRange s =
      let path = (source_path_of k dev_name) in
      let config = m.mount_bouheki_config_map 0 in
      rw (ret-restricted_mount for_each visits k m dev_name) (
        InRange-unless (only_container config && is_host_mntns k) _ (
          InRange-unless (is_monitor config) (verdict k m path) (
            InRange-if (listed m.mount_denied_source_list path) (neg k.eperm) (pos 0)
              (InRange-neg k.eperm s.eperm_bound) (omega arith))))

  -- The event of a mount by a process that is not one of the host while only containers are
  -- restricted is read back without an error: the fields are the identity of the process, the
  -- source, and the value that the program returned.
  pub parse_event-restricted_mount :
      IsKernel k
      → only_container (m.mount_bouheki_config_map 0) && is_host_mntns k ≡ false
      → (event : List ℕ) × ((restricted_mount k for_each m dev_name).events ≡ event ∷ [])
        × (parse_event event
            ≡ inr (
                sent_log k
                  (source_path_of k dev_name)
                  (restricted_mount k for_each m dev_name).ret))
  parse_event-restricted_mount s restricted =
      let (event, one, size, held) =
        restricted_mount-reports for_each visits k m dev_name s restricted in
      (
        event,
        one,
        parse_event-decode event size ∙ ap inr (decode-Holds k _ _ event s (ret-InRange s) held),
      )

  -- The log entry of that event has the C string in the source, and says BLOCKED exactly for a mount
  -- that was refused: outside of monitor mode, from a denied source.
  pub new_audit_log-restricted_mount :
      IsKernel k
      → only_container (m.mount_bouheki_config_map 0) && is_host_mntns k ≡ false
      → (event : List ℕ) × (entry : AuditLog) × ((restricted_mount k for_each m dev_name).events
          ≡ event ∷ [])
        × (parse_event event ≡ inr entry)
        × ((new_audit_log entry).source_path ≡ cstring (source_path_of k dev_name))
        × ((new_audit_log entry).action ≡ (
            if is_monitor (m.mount_bouheki_config_map 0)
            then "ALLOWED"
            else if listed m.mount_denied_source_list (source_path_of k dev_name)
            then "BLOCKED"
            else "ALLOWED"))
  unfolding new_audit_log
  new_audit_log-restricted_mount s restricted =
      let (event, one, parsed) = parse_event-restricted_mount s restricted in
      (
        event,
        sent_log k (source_path_of k dev_name) (restricted_mount k for_each m dev_name).ret,
        one,
        parsed,
        path_to_string-eq-cstring (source_path_of k dev_name),
        rw (ret-restricted_mount for_each visits k m dev_name, restricted)
            (ret_to_action-verdict (is_monitor (m.mount_bouheki_config_map 0))
              (listed m.mount_denied_source_list (source_path_of k dev_name)) (neg k.eperm)
              (is_zero-neg k.eperm s.eperm_pos)),
      )
