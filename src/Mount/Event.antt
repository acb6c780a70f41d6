-- ===== src/Mount/Event.antt =====
-- The event that pkg/bpf/c/restricted-mount.bpf.c sends: when it is sent, and what it holds.
use bouheki.Prelude.{
  ℕ, ◌≡◌, refl, ap, ◌∙◌, ◌↔◌, Bool-cases, inl, inr, List, [], ◌∷◌, ◌++◌, false, true, ◌&&◌, arith,
  ℤ, pos, Option, length, length-replicate, ◌==◌,
}
use bouheki.CType.{sizeof}
use bouheki.Buffer.{offset_of, size_of, Assignment, assign, zeroed, le_bytes, int_pattern}
use bouheki.Buffer.Bytes.{length-le_bytes}
use bouheki.Buffer.Members.{Fits, Holds, assign-Holds, length-assign}
use bouheki.Kernel.{Kernel, IsKernel, ForEach, IsForEach}
use bouheki.Common.{task_comm_len}
use bouheki.Common.Container.{
  current_pid, host_mnt_ns_inum, is_host_mntns, mnt_ns_inum, nodename, parent_comm,
}
use bouheki.Common.Lengths.{length-nodename, length-parent_comm}
use bouheki.Mount.{
  source_path_of, FilePath, CallbackCtx, Maps, Config, only_container, out, restricted_mount,
  event_of, mount_audit_event,
}
use bouheki.Mount.Policy.{restricted_mount-eq-out}

-- The event with its result filled in.
abbrev pub sent : Kernel → List ℕ → ℤ → List ℕ
sent k path r =
    assign mount_audit_event (event_of k path ++ ("ret" ∷ [], le_bytes 4 (int_pattern r)) ∷ [])
      (zeroed mount_audit_event)

events-out :
    (config : Option Config) (inum : ℕ) (k : Kernel) (path : List ℕ) (r : ℤ)
    → only_container config && inum == host_mnt_ns_inum ≡ false
    → (out config inum (event_of k path) r).events
      ≡ sent k path (out config inum (event_of k path) r).ret ∷ []
unfolding out
events-out config inum k path r restricted = rw restricted

length-source_path_of :
    (k : Kernel) → IsKernel k → (dev_name : ℕ) → length (source_path_of k dev_name) ≡ 255
unfolding source_path_of
length-source_path_of k s dev_name =
    s.length-probe_read_kernel_str 255 dev_name _ (length-replicate {A = ℕ} 255 0)

sent-Fits :
    (k : Kernel) (path : List ℕ) (r : ℤ)
    → IsKernel k
    → length path ≡ 255
    → Fits mount_audit_event (event_of k path ++ (("ret" ∷ [], le_bytes 4 (int_pattern r)) ∷ []))
unfolding event_of size_of
sent-Fits k path r s full = (
  length-nodename k s,
  (
    length-le_bytes 8 _,
    (
      length-le_bytes 4 _,
      (s.length-current_comm 16, (length-parent_comm k s, (full, (length-le_bytes 4 _, tt)))),
    ),
  ),
)

-- All members of the event, with what they hold: the identity of the process, the source, and the
-- result.
abbrev pub reported : Kernel → List ℕ → ℤ → List Assignment
reported k path r =
    ("nodename" ∷ [], nodename k)
    ∷ ("cgroup" ∷ [], le_bytes 8 k.current_cgroup_id)
    ∷ ("pid" ∷ [], le_bytes 4 (current_pid k))
    ∷ ("task" ∷ [], k.current_comm task_comm_len)
    ∷ ("parent_task" ∷ [], parent_comm k)
    ∷ ("source_path" ∷ [], path)
    ∷ ("ret" ∷ [], le_bytes 4 (int_pattern r))
    ∷ []

sent-Holds :
    (k : Kernel) (path : List ℕ) (r : ℤ)
    → IsKernel k
    → length path ≡ 255
    → Holds mount_audit_event (reported k path r) (sent k path r)
unfolding event_of offset_of size_of sizeof
sent-Holds k path r s full =
    assign-Holds mount_audit_event (reported k path r) 368 (zeroed mount_audit_event)
      (sent-Fits k path r s full) refl (omega arith)

length-sent : (k : Kernel) (path : List ℕ) (r : ℤ) → length (sent k path r) ≡ 368
unfolding sizeof event_of
length-sent k path r =
    length-assign mount_audit_event (reported k path r) (zeroed mount_audit_event)
    ∙ length-replicate {A = ℕ} 368 0

module _ (for_each : ForEach FilePath CallbackCtx) (visits : IsForEach for_each) (k : Kernel)
    (m : Maps) (dev_name : ℕ) where
  -- A process of the host, if only containers are restricted, may mount, and nothing is reported.
  pub restricted_mount_exempt :
      only_container (m.mount_bouheki_config_map 0) && is_host_mntns k ≡ true
      → restricted_mount k for_each m dev_name ≡ record { ret = pos 0; events = [] }
  unfolding is_host_mntns out
  restricted_mount_exempt exempt = restricted_mount-eq-out for_each visits k m dev_name ∙ rw exempt

  -- A mount by a process that is not one of the host while only containers are restricted is
  -- reported by exactly one event of the size of the C struct, whose members are the identity of
  -- the process, the source, and the value that the program returns.
  pub restricted_mount-reports :
      IsKernel k
      → only_container (m.mount_bouheki_config_map 0) && is_host_mntns k ≡ false
      → (event : List ℕ) × ((restricted_mount k for_each m dev_name).events ≡ event ∷ [])
        × (length event ≡ 368)
        × Holds mount_audit_event
            (reported k (source_path_of k dev_name) (restricted_mount k for_each m dev_name).ret)
            event
  unfolding is_host_mntns
  restricted_mount-reports s restricted =
      let r = (restricted_mount k for_each m dev_name).ret in
      (
        sent k (source_path_of k dev_name) r,
        rw (restricted_mount-eq-out for_each visits k m dev_name) (
            events-out (m.mount_bouheki_config_map 0) (mnt_ns_inum k) k (source_path_of k dev_name)
              _ restricted),
        length-sent k (source_path_of k dev_name) r,
        sent-Holds k (source_path_of k dev_name) r s (length-source_path_of k s dev_name),
      )

  -- The program returns 0 and sends no event exactly if the process is of the host while only
  -- containers are restricted.
  restricted_mount-silent_iff :
      IsKernel k
      → (restricted_mount k for_each m dev_name ≡ record { ret = pos 0; events = [] })
        ↔ (only_container (m.mount_bouheki_config_map 0) && is_host_mntns k ≡ true)
  restricted_mount-silent_iff s =
      elim (Bool-cases (only_container (m.mount_bouheki_config_map 0) && is_host_mntns k)) [
        | inl exempt ↦ rw exempt (λ _. refl, λ _. restricted_mount_exempt exempt)
        | inr restricted ↦ (
          λ silent.
              let (event, one, size, holds) = restricted_mount-reports s restricted in
              let none_sent = ap (λ o. o.events) silent in cc,
          λ passed. cc (restricted, passed),
        )
      ]
