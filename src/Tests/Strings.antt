-- ===== src/Tests/Strings.antt =====
-- The C strings of Common/Strings.antt on concrete arrays.
use bouheki.Prelude.{ℕ, ◌≡◌, ◌↔◌, refl, List, [], ◌∷◌, ◌++◌, pos, arith, take}
use bouheki.Common.{strcmp, strlen}
use bouheki.Common.Strings.{cstring, strcmp-append, strcmp-strlen_iff, strlen-append}
use bouheki.Tests.Kernel.{etc, etc_passwd, fit}

strcmp-strlen_iff_example :
    (strcmp (fit 8 etc) (fit 16 etc_passwd) (strlen (fit 8 etc) 8) ≡ pos 0)
    ↔ ((rest : List ℕ) × (cstring (fit 16 etc_passwd) ≡ cstring (take 8 (fit 8 etc)) ++ rest))
strcmp-strlen_iff_example = strcmp-strlen_iff (fit 8 etc) (fit 16 etc_passwd) 8

-- "/etc" names "/etc/passwd", and also a file "/etcetera": entries are not cut at a slash.
no_path_boundary : strcmp (fit 8 etc) (etc ++ (b'e' ∷ b't' ∷ 0 ∷ [])) (strlen (fit 8 etc) 8) ≡ pos 0
unfolding strcmp strlen
no_path_boundary = refl

-- An empty entry names every path.
empty_entry : strcmp (fit 8 []) etc (strlen (fit 8 []) 8) ≡ pos 0
unfolding strcmp strlen
empty_entry = refl

strcmp-append_example : strcmp (etc ++ etc) (etc_passwd ++ []) 4 ≡ strcmp etc etc_passwd 4
strcmp-append_example = strcmp-append etc etc_passwd etc [] 4 (omega arith) (omega arith)

strlen-append_example : strlen (etc ++ etc) 4 ≡ strlen etc 4
strlen-append_example = strlen-append etc etc 4 (omega arith)
