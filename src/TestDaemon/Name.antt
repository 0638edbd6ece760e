-- ===== src/TestDaemon/Name.antt =====
-- The name of the command: what stands behind the last slash of the path.
use ubuntu_projects.Base.{◌≡◌, refl, false, none, some, [], ◌∷◌, ◌++◌, ◌==◌}
use ubuntu_projects.Sys.{Bytes}
use ubuntu_projects.TestDaemon.{behind_slash, command_name}

-- No byte of the text is a slash.
abbrev pub NoSlash : Bytes → Type 0
NoSlash [] = Unit {0}
NoSlash (c ∷ s) = ((c == b'/') ≡ false) × NoSlash s

behind_slash-NoSlash : (name : Bytes) → NoSlash name → behind_slash name ≡ none
unfolding behind_slash
behind_slash-NoSlash [] h = refl
behind_slash-NoSlash (c ∷ s) h = rw (behind_slash-NoSlash s h.1, h.0)

last_slash : (dir name : Bytes) → NoSlash name → behind_slash (dir ++ b'/' ∷ name) ≡ some name
unfolding behind_slash
last_slash [] name h = rw (behind_slash-NoSlash name h)
last_slash (c ∷ dir) name h = rw (last_slash dir name h)

-- The command is named by what stands behind the last slash of the path, and by the whole path if
-- that has no slash.
pub command_name_lem :
    (dir name : Bytes)
    → NoSlash name
    → (command_name (dir ++ b'/' ∷ name) ≡ name) × (command_name name ≡ name)
unfolding command_name
command_name_lem dir name h =
    (rw (last_slash dir name h, command_name), rw (behind_slash-NoSlash name h, command_name))
