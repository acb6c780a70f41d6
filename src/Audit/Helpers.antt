-- ===== src/Audit/Helpers.antt =====
-- pkg/audit/helpers/helpers.go. A Go string that is built byte by byte is the list of its runes.
use bouheki.Prelude.{ℕ, List, [], ◌∷◌, if◌then◌else◌, ◌==◌}

-- CommToString and NodenameToString: all bytes that are not NUL.
abbrev pub without_nul : List ℕ → List ℕ
without_nul [] = []
without_nul (b ∷ bytes) = if b == 0 then without_nul bytes else b ∷ without_nul bytes

abbrev pub comm_to_string : List ℕ → List ℕ
comm_to_string comm_bytes = without_nul comm_bytes

abbrev pub nodename_to_string : List ℕ → List ℕ
nodename_to_string bytes = without_nul bytes
