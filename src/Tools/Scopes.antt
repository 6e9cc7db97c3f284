-- ===== src/Tools/Scopes.antt =====
-- The file and the shell capabilities of a tool: src/ai/tools/scopes/fs.scope.ts and shell.scope.ts.
-- Paths are resolved, files read and written, and programs run by the platform, as `Os`. A call returns its
-- result, with what it had the platform do.
mod Resolved
pub mod Contained
use capybara_ai.Prelude.{
  String, ◌<>◌, Bool, true, false, Option, none, some, List, [], ◌∷◌, map, any, includes, not, ◌==◌,
  string_eq, ◌||◌, if◌then◌else◌, starts_with,
}
use capybara_ai.Prelude.Effect.{Result, ok, throw}
use capybara_ai.Tools.{FsMode, no_access, read, readwrite, FsScope, ShellScope}

pub record Os : Type 0 where
  pub resolve : String → String
  pub join : String → String → String
  pub dirname : String → String
  pub basename : String → String
  pub sep : String
  pub realpath : String → Result String String
  pub read_file : String → Result String String
  pub write_file : String → String → Result String (Unit {0})
  pub exec_file : String → List String → Result String String

-- What a tool had the platform do.
pub data OsCall : Type 0 where
  reads : String → OsCall
  writes : String → String → OsCall
  runs : String → List String → OsCall

abbrev pub Traced : Type 0 → Type 0
Traced A = Result String A × List OsCall

module _ (os : Os) where
  abbrev pub parent_joined : String → Result String String → Result String String
  parent_joined abs (throw e) = throw "parent directory not found"
  parent_joined abs (ok parent) = ok (os.join parent (os.basename abs))

  -- The real path, or that of the parent with the name, where the file is to be written first.
  abbrev pub real_or_new : String → Bool → Result String String → Result String String
  real_or_new abs for_write (ok real) = ok real
  real_or_new abs for_write (throw e) =
      if for_write then parent_joined abs (os.realpath (os.dirname abs)) else throw "path not found"

  abbrev pub or_resolved : String → Result String String → String
  or_resolved root (ok real) = real
  or_resolved root (throw e) = os.resolve root

  abbrev pub real_root : String → String
  real_root root = or_resolved root (os.realpath root)

  abbrev pub is_contained : String → List String → Bool
  is_contained real roots =
      any (λ root. real == root || starts_with real (root <> os.sep)) (map real_root roots)

  abbrev pub within : List String → Result String String → Result String String
  within roots (throw e) = throw e
  within roots (ok real) =
      if is_contained real roots then ok real else throw "path is outside the allowed roots"

  abbrev pub resolve_some : String → List String → Bool → Result String String
  resolve_some p roots for_write =
      let abs = os.resolve p in within roots (real_or_new abs for_write (os.realpath abs))

  unfoldable pub resolve_within : String → List String → Bool → Result String String
  resolve_within p [] for_write = throw "no allowed paths configured"
  resolve_within p (root ∷ roots) for_write = resolve_some p (root ∷ roots) for_write

  abbrev pub read_at : Result String String → Traced String
  read_at (throw e) = (throw e, [])
  read_at (ok path) = (os.read_file path, reads path ∷ [])

  abbrev pub write_at : String → Result String String → Traced (Unit {0})
  write_at text (throw e) = (throw e, [])
  write_at text (ok path) = (os.write_file path text, writes path text ∷ [])

  -- `scope.mode`, where there is a scope
  abbrev pub read_in : FsMode → List String → String → Traced String
  unfolding resolve_within
  read_in no_access roots p = (throw "filesystem read not granted", [])
  read_in _ roots p = read_at (resolve_within p roots false)

  abbrev pub write_in : FsMode → List String → String → String → Traced (Unit {0})
  unfolding resolve_within
  write_in readwrite roots p text = write_at text (resolve_within p roots true)
  write_in _ roots p text = (throw "filesystem write not granted", [])

  unfoldable pub fs_read_file : Option FsScope → String → Traced String
  fs_read_file none p = (throw "filesystem read not granted", [])
  fs_read_file (some scope) p = read_in scope.mode scope.allowed_paths p

  unfoldable pub fs_write_file : Option FsScope → String → String → Traced (Unit {0})
  fs_write_file none p text = (throw "filesystem write not granted", [])
  fs_write_file (some scope) p text = write_in scope.mode scope.allowed_paths p text

  abbrev pub exec_listed : List String → String → List String → Traced String
  exec_listed [] command args = (throw "shell execution not granted", [])
  exec_listed (c ∷ cs) command args =
      if includes (c ∷ cs) command
      then (os.exec_file command args, runs command args ∷ [])
      else (throw ("command not allowlisted: " <> command), [])

  unfoldable pub shell_exec : Option ShellScope → String → List String → Traced String
  shell_exec none command args = (throw "shell execution not granted", [])
  shell_exec (some scope) command args = exec_listed scope.allowed_commands command args
