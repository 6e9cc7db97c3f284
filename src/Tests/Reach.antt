-- ===== src/Tests/Reach.antt =====
-- src/ai/tools/scopes at small inputs: what a tool reaches.
use capybara_ai.Prelude.{◌<>◌, some, [], ◌∷◌, ◌≡◌, refl, All, ◌==◌, string_eq, if◌then◌else◌}
use capybara_ai.Prelude.Effect.{ok, throw}
use capybara_ai.Tools.{readwrite, FsScope, ShellScope}
use capybara_ai.Tools.Scopes.{
  Os, reads, writes, fs_read_file, fs_write_file, shell_exec, resolve_within,
}
use capybara_ai.Tools.Scopes.Contained.{IsPermitted, capabilities-ArePermitted}

-- Every path is absolute; `/work/new` does not exist, and `/work/link` leads out.
abbrev os : Os
os = record {
  resolve = λ p. p;
  join = λ dir name. dir <> ("/" <> name);
  dirname = λ p. "/work";
  basename = λ p. "new";
  sep = "/";
  realpath = λ p.
      if p == "/work/new"
      then throw "ENOENT"
      else if p == "/work/link"
      then ok "/etc/passwd"
      else ok p;
  read_file = λ p. ok "text";
  write_file = λ p text. ok tt;
  exec_file = λ command args. ok "";
}

abbrev workspace : FsScope
workspace = record { mode = readwrite; allowed_paths = "/work" ∷ [] }

abbrev git_only : ShellScope
git_only = record { allowed_commands = "git" ∷ [] }

reads_inside : fs_read_file os (some workspace) "/work/a" ≡ (ok "text", reads "/work/a" ∷ [])
unfolding fs_read_file resolve_within
reads_inside = refl

link_refused :
    fs_read_file os (some workspace) "/work/link" ≡ (throw "path is outside the allowed roots", [])
unfolding fs_read_file resolve_within
link_refused = refl

sibling_refused :
    fs_read_file os (some workspace) "/workshop/a" ≡ (throw "path is outside the allowed roots", [])
unfolding fs_read_file resolve_within
sibling_refused = refl

writes_new :
    fs_write_file os (some workspace) "/work/new" "hi" ≡ (ok tt, writes "/work/new" "hi" ∷ [])
unfolding fs_write_file resolve_within
writes_new = refl

capabilities-ArePermitted_example :
    All
      (IsPermitted os (some workspace) (some git_only) "/work/new")
      (fs_read_file os (some workspace) "/work/new").1
    × All
        (IsPermitted os (some workspace) (some git_only) "/work/new")
        (fs_write_file os (some workspace) "/work/new" "hi").1
    × All
        (IsPermitted os (some workspace) (some git_only) "/work/new")
        (shell_exec os (some git_only) "git" ("log" ∷ [])).1
capabilities-ArePermitted_example =
    capabilities-ArePermitted os (some workspace) (some git_only) "/work/new" "hi" "git"
      ("log" ∷ [])
