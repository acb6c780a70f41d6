-- ===== src/Audit/Mount.antt =====
-- pkg/audit/mount/audit.go: how an event of the mount program is read and put into a log entry.
pub mod Logged
pub mod Manager
pub mod Deployed
use bouheki.Prelude.{ℕ, ◌+◌, List, [], ◌∷◌, String, if◌then◌else◌, ◌==◌, ◌⊎◌, inl, inr, ℤ, is_zero}
use bouheki.Buffer.{from_le_bytes, read_at}
use bouheki.Audit.Binary.{ReadError, int32, read}
use bouheki.Audit.Helpers.{comm_to_string, nodename_to_string}

abbrev pub new_uts_len : ℕ
new_uts_len = 64

abbrev pub path_max : ℕ
path_max = 255

abbrev pub task_comm_len : ℕ
task_comm_len = 16

-- type auditLog; its arrays are lists of bytes
pub record AuditLog : Type 0 where
  pub cgroup_id : ℕ
  pub pid : ℕ
  pub ret : ℤ
  pub nodename : List ℕ
  pub command : List ℕ
  pub parent_command : List ℕ
  pub mount_source_path : List ℕ

-- binary.Size(auditLog{}), the sum of the sizes of its fields
abbrev pub audit_log_size : ℕ
audit_log_size = 8 + 4 + 4 + (new_uts_len + 1) + task_comm_len + task_comm_len + path_max

-- The fields, one behind the other.
unfoldable pub decode : List ℕ → AuditLog
decode bytes = record {
  cgroup_id = from_le_bytes (read_at 0 8 bytes);
  pid = from_le_bytes (read_at 8 4 bytes);
  ret = int32 (from_le_bytes (read_at 12 4 bytes));
  nodename = read_at 16 (new_uts_len + 1) bytes;
  command = read_at (16 + (new_uts_len + 1)) task_comm_len bytes;
  parent_command = read_at (16 + (new_uts_len + 1) + task_comm_len) task_comm_len bytes;
  mount_source_path =
      read_at (16 + (new_uts_len + 1) + task_comm_len + task_comm_len) path_max bytes;
}

abbrev pub decoded : ReadError ⊎ (List ℕ × List ℕ) → ReadError ⊎ AuditLog
decoded (inl err) = inl err
decoded (inr (bytes, rest)) = inr (decode bytes)

unfoldable pub parse_event : List ℕ → ReadError ⊎ AuditLog
parse_event event_bytes = decoded (read audit_log_size event_bytes)

-- retToaction
abbrev pub ret_to_action : ℤ → String
ret_to_action ret = if is_zero ret then "ALLOWED" else "BLOCKED"

-- The runes in front of the first NUL.
abbrev pub path_to_string : List ℕ → List ℕ
path_to_string [] = []
path_to_string (b ∷ path) = if b == 0 then [] else b ∷ path_to_string path

-- log.RestrictedMountLog with its AuditEventLog
pub record RestrictedMountLog : Type 0 where
  pub action : String
  pub hostname : List ℕ
  pub pid : ℕ
  pub comm : List ℕ
  pub parent_comm : List ℕ
  pub source_path : List ℕ

unfoldable pub new_audit_log : AuditLog → RestrictedMountLog
new_audit_log event = record {
  action = ret_to_action event.ret;
  hostname = nodename_to_string event.nodename;
  pid = event.pid;
  comm = comm_to_string event.command;
  parent_comm = comm_to_string event.parent_command;
  source_path = path_to_string event.mount_source_path;
}
