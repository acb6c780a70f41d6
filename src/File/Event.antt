-- ===== src/File/Event.antt =====
-- The event that pkg/bpf/c/restricted-file.bpf.c sends: when it is sent, and what it holds.
use bouheki.Prelude.{
  ℕ, ◌≡◌, refl, ap, ◌∙◌, ◌↔◌, ◌||◌, List, [], ◌∷◌, ◌++◌, false, true, ◌&&◌, arith, is_negative, ℤ,
  pos, Option, Bool-cases, inl, inr, length, length-replicate, ◌==◌,
}
use bouheki.CType.{sizeof}
use bouheki.Buffer.{offset_of, size_of, Assignment, assign, zeroed, le_bytes, int_pattern}
use bouheki.Buffer.Bytes.{length-le_bytes}
use bouheki.Buffer.Members.{Fits, Holds, assign-Holds, length-assign}
use bouheki.Kernel.{Kernel, IsKernel, ForEach, IsForEach}
use bouheki.Common.{task_comm_len}
use bouheki.Common.Container.{
  current_pid, host_mnt_ns_inum, is_host_mntns, mnt_ns_inum, nodename, parent_comm,
}
use bouheki.Common.Lengths.{length-nodename, length-parent_comm}
use bouheki.File.{
  FilePath, CallbackCtx, Maps, Config, only_container, out, restricted_file_open, event_of,
  file_open_audit_event,
}
use bouheki.File.Policy.{opened, restricted_file_open-eq-out}

-- The event with its result filled in.
abbrev pub sent : Kernel → List ℕ → ℤ → List ℕ
sent k path r =
    assign file_open_audit_event (event_of k path ++ ("ret" ∷ [], le_bytes 4 (int_pattern r)) ∷ [])
      (zeroed file_open_audit_event)

events-out :
    (config : Option Config) (inum : ℕ) (k : Kernel) (path : List ℕ) (r : ℤ)
    → only_container config && inum == host_mnt_ns_inum ≡ false
    → (out config inum (event_of k path) r).events
      ≡ sent k path (out config inum (event_of k path) r).ret ∷ []
unfolding out
events-out config inum k path r restricted = rw restricted

sent-Fits :
    (k : Kernel) (path : List ℕ) (r : ℤ)
    → IsKernel k
    → length path ≡ 255
    → Fits file_open_audit_event
        (event_of k path ++ (("ret" ∷ [], le_bytes 4 (int_pattern r)) ∷ []))
unfolding event_of size_of
sent-Fits k path r s full = (
  length-nodename k s,
  (
    length-le_bytes 8 _,
    (
      length-le_bytes 4 _,
      (s.length-current_comm 16, (length-parent_comm k s, (full, (length-le_bytes 4 _, tt)))),
    ),
  ),
)

-- All members of the event, with what they hold: the identity of the process, the path, and the
-- result.
abbrev pub reported : Kernel → List ℕ → ℤ → List Assignment
reported k path r =
    ("nodename" ∷ [], nodename k)
    ∷ ("cgroup" ∷ [], le_bytes 8 k.current_cgroup_id)
    ∷ ("pid" ∷ [], le_bytes 4 (current_pid k))
    ∷ ("task" ∷ [], k.current_comm task_comm_len)
    ∷ ("parent_task" ∷ [], parent_comm k)
    ∷ ("path" ∷ [], path)
    ∷ ("ret" ∷ [], le_bytes 4 (int_pattern r))
    ∷ []

sent-Holds :
    (k : Kernel) (path : List ℕ) (r : ℤ)
    → IsKernel k
    → length path ≡ 255
    → Holds file_open_audit_event (reported k path r) (sent k path r)
unfolding event_of offset_of size_of sizeof
sent-Holds k path r s full =
    assign-Holds file_open_audit_event (reported k path r) 368 (zeroed file_open_audit_event)
      (sent-Fits k path r s full) refl (omega arith)

length-sent : (k : Kernel) (path : List ℕ) (r : ℤ) → length (sent k path r) ≡ 368
unfolding sizeof event_of
length-sent k path r =
    length-assign file_open_audit_event (reported k path r) (zeroed file_open_audit_event)
    ∙ length-replicate {A = ℕ} 368 0

module _ (for_each : ForEach FilePath CallbackCtx) (visits : IsForEach for_each) (k : Kernel)
    (m : Maps) (file_ptr : ℕ) where
  -- Without a path nothing is reported and the open goes through.
  pub restricted_file_open_no_path :
      is_negative (opened k file_ptr).0 ≡ true
      → restricted_file_open k for_each m file_ptr ≡ record { ret = pos 0; events = [] }
  restricted_file_open_no_path no_path =
      restricted_file_open-eq-out for_each visits k m file_ptr ∙ rw no_path

  -- The same for a process of the host, if only containers are restricted.
  pub restricted_file_open_exempt :
      only_container (m.fileopen_bouheki_config_map 0) && is_host_mntns k ≡ true
      → restricted_file_open k for_each m file_ptr ≡ record { ret = pos 0; events = [] }
  unfolding is_host_mntns out
  restricted_file_open_exempt exempt =
      restricted_file_open-eq-out for_each visits k m file_ptr
      ∙ elim (Bool-cases (is_negative (opened k file_ptr).0)) [
        | inl no_path ↦ rw no_path
        | inr path ↦ rw (path, exempt)
      ]

  -- An open whose path can be read, by a process that is not one of the host while only containers
  -- are restricted, is reported by exactly one event of the size of the C struct, whose members are
  -- the identity of the process, the path, and the value that the program returns.
  pub restricted_file_open-reports :
      IsKernel k
      → is_negative (opened k file_ptr).0 ≡ false
      → only_container (m.fileopen_bouheki_config_map 0) && is_host_mntns k ≡ false
      → (event : List ℕ) × ((restricted_file_open k for_each m file_ptr).events ≡ event ∷ [])
        × (length event ≡ 368)
        × Holds file_open_audit_event
            (reported k (opened k file_ptr).1 (restricted_file_open k for_each m file_ptr).ret)
            event
  unfolding is_host_mntns
  restricted_file_open-reports s path restricted =
      let r = (restricted_file_open k for_each m file_ptr).ret in
      (
        sent k (opened k file_ptr).1 r,
        rw (restricted_file_open-eq-out for_each visits k m file_ptr, path)
            (events-out (m.fileopen_bouheki_config_map 0) (mnt_ns_inum k) k (opened k file_ptr).1 _
              restricted),
        length-sent k (opened k file_ptr).1 r,
        sent-Holds k (opened k file_ptr).1 r s
            (s.length-d_path _ 255 _ (length-replicate {A = ℕ} 255 0)),
      )

  -- The program returns 0 and sends no event exactly if the path cannot be read, or the process is
  -- of the host while only containers are restricted.
  restricted_file_open-silent_iff :
      IsKernel k
      → (restricted_file_open k for_each m file_ptr ≡ record { ret = pos 0; events = [] }) ↔ (
          is_negative (opened k file_ptr).0
            || (only_container (m.fileopen_bouheki_config_map 0) && is_host_mntns k)
          ≡ true)
  restricted_file_open-silent_iff s = elim (Bool-cases (is_negative (opened k file_ptr).0)) [
    | inl no_path ↦ rw no_path (λ _. refl, λ _. restricted_file_open_no_path no_path)
    | inr path ↦
        elim (Bool-cases (only_container (m.fileopen_bouheki_config_map 0) && is_host_mntns k)) [
          | inl exempt ↦ rw (path, exempt) (λ _. refl, λ _. restricted_file_open_exempt exempt)
          | inr restricted ↦ (
            λ silent.
                let (event, one, size, holds) = restricted_file_open-reports s path restricted in
                let none_sent = ap (λ o. o.events) silent in cc,
            λ passed. cc (path, restricted, passed),
          )
        ]
  ]
