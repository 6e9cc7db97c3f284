-- ===== src/Tools/Scopes/Contained.antt =====
-- What the file and the shell capabilities of src/ai/tools/scopes let a tool do.
use capybara_ai.Prelude.{
  String, true, false, Bool-cases, Option, none, some, List, [], ◌∷◌, All, includes, string_eq,
  nat_eq, ◌≡◌, inl, inr, refl, ◌≢◌,
}
use capybara_ai.Prelude.Effect.{Result, ok, throw}
use capybara_ai.Tools.{FsMode, no_access, read, readwrite, FsScope, ShellScope}
use capybara_ai.Tools.Scopes.{
  Os, OsCall, reads, writes, runs, resolve_within, read_at, write_at, read_in, write_in,
  fs_read_file, fs_write_file, exec_listed, shell_exec,
}
use capybara_ai.Tools.Scopes.Resolved.{
  IsResolved, IsWritable, IsUnderSome, read-IsContained, write-IsContained,
}

-- What the scopes of a tool permit, when it asks for the path `p`.
abbrev pub IsPermitted : Os → Option FsScope → Option ShellScope → String → OsCall → Type 0
IsPermitted os fs shell p (reads path) =
    (scope : FsScope) × (fs ≡ some scope)
    × (scope.mode ≢ no_access)
    × IsResolved os p path
    × IsUnderSome os path scope.allowed_paths
IsPermitted os fs shell p (writes path text) =
    (scope : FsScope) × (fs ≡ some scope)
    × (scope.mode ≡ readwrite)
    × IsWritable os p path
    × IsUnderSome os path scope.allowed_paths
IsPermitted os fs shell p (runs command args) =
    (scope : ShellScope) × (shell ≡ some scope) × (includes scope.allowed_commands command ≡ true)

module _ (os : Os) (shell : Option ShellScope) (p : String) where
  read_at-IsPermitted :
      (scope : FsScope) (r : Result String String)
      → scope.mode ≢ no_access
      → ((path : String)
          → r ≡ ok path
          → IsResolved os p path × IsUnderSome os path scope.allowed_paths)
      → All (IsPermitted os (some scope) shell p) (read_at os r).1
  read_at-IsPermitted scope (throw e) granted under = tt
  read_at-IsPermitted scope (ok path) granted under =
      let (resolved, below) = under path refl in ((scope, refl, granted, resolved, below), tt)

  write_at-IsPermitted :
      (scope : FsScope) (text : String) (r : Result String String)
      → scope.mode ≡ readwrite
      → ((path : String)
          → r ≡ ok path
          → IsWritable os p path × IsUnderSome os path scope.allowed_paths)
      → All (IsPermitted os (some scope) shell p) (write_at os text r).1
  write_at-IsPermitted scope text (throw e) granted under = tt
  write_at-IsPermitted scope text (ok path) granted under =
      let (resolved, below) = under path refl in ((scope, refl, granted, resolved, below), tt)

  read_in-IsPermitted :
      (mode : FsMode) (roots : List String)
      → All
          (IsPermitted os (some (record { mode = mode; allowed_paths = roots })) shell p)
          (read_in os mode roots p).1
  unfolding resolve_within
  read_in-IsPermitted no_access roots = tt
  read_in-IsPermitted read roots =
      read_at-IsPermitted (record { mode = read; allowed_paths = roots })
        (resolve_within os p roots false) (λ e. cc) (read-IsContained os p roots)
  read_in-IsPermitted readwrite roots =
      read_at-IsPermitted (record { mode = readwrite; allowed_paths = roots })
        (resolve_within os p roots false) (λ e. cc) (read-IsContained os p roots)

  write_in-IsPermitted :
      (mode : FsMode) (roots : List String) (text : String)
      → All
          (IsPermitted os (some (record { mode = mode; allowed_paths = roots })) shell p)
          (write_in os mode roots p text).1
  unfolding resolve_within
  write_in-IsPermitted no_access roots text = tt
  write_in-IsPermitted read roots text = tt
  write_in-IsPermitted readwrite roots text =
      write_at-IsPermitted (record { mode = readwrite; allowed_paths = roots }) text
        (resolve_within os p roots true) refl (write-IsContained os p roots)

exec_listed-IsPermitted :
    (os : Os) (fs : Option FsScope) (p : String) (listed : List String) (command : String)
    (args : List String)
    → All
        (IsPermitted os fs (some (record { allowed_commands = listed })) p)
        (exec_listed os listed command args).1
exec_listed-IsPermitted os fs p [] command args = tt
exec_listed-IsPermitted os fs p (c ∷ cs) command args =
    elim (Bool-cases (includes (c ∷ cs) command)) [
      | inl h ↦ rw h ((record { allowed_commands = c ∷ cs }, refl, h), tt)
      | inr h ↦ rw h tt
    ]

-- Whatever path and program a tool asks its capabilities for, the platform reads a file only by a scope
-- that is not without access, writes one only by a scope for reading and writing, and runs only a
-- listed program. The path that is read is where the path that was asked for leads when its links are
-- followed; the path that is written is that too or, where there is no such file, the name in the
-- directory to which its parent leads. Either is a root, its
-- links followed where it exists, or goes on from one and the separator. Without a scope nothing is done.
pub capabilities-ArePermitted :
    (os : Os) (fs : Option FsScope) (shell : Option ShellScope) (p text command : String)
    (args : List String)
    → All (IsPermitted os fs shell p) (fs_read_file os fs p).1
      × All (IsPermitted os fs shell p) (fs_write_file os fs p text).1
      × All (IsPermitted os fs shell p) (shell_exec os shell command args).1
unfolding fs_read_file fs_write_file shell_exec
capabilities-ArePermitted os none none p text command args = (tt, tt, tt)
capabilities-ArePermitted os none (some scope) p text command args =
    (tt, tt, exec_listed-IsPermitted os none p scope.allowed_commands command args)
capabilities-ArePermitted os (some scope) none p text command args = (
  read_in-IsPermitted os none p scope.mode scope.allowed_paths,
  write_in-IsPermitted os none p scope.mode scope.allowed_paths text,
  tt,
)
capabilities-ArePermitted os (some scope) (some s) p text command args = (
  read_in-IsPermitted os (some s) p scope.mode scope.allowed_paths,
  write_in-IsPermitted os (some s) p scope.mode scope.allowed_paths text,
  exec_listed-IsPermitted os (some scope) p s.allowed_commands command args,
)
