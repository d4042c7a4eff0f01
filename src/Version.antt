-- ===== src/Version.antt =====
-- version/version.go: the report of a build. The build sets the first three values, which have the
-- defaults below; the rest come from the Go runtime.
use Prim.Native.String.{◌++◌}
use resource_extend.Base.{String, ◌≡◌, refl}

pub record Build : Type 0 where
  pub release : String
  pub revision : String
  pub built_at : String
  pub go_version : String
  pub os : String
  pub arch : String

abbrev pub unset_build : String → String → String → Build
unset_build go_version os arch = record {
  release = "unknown";
  revision = "HEAD";
  built_at = "now";
  go_version = go_version;
  os = os;
  arch = arch;
}

abbrev line : String → String → String
line title value = title ++ (value ++ "\n")

unfoldable pub report : Build → String
report b =
    line "Version:        " b.release
    ++ (line "Git hash:       " b.revision
        ++ (line "Built:          " b.built_at
            ++ (line "Golang version: " b.go_version
                ++ line "OS/Arch:        " (b.os ++ ("/" ++ b.arch)))))

report_lem :
    report (unset_build "go1" "linux" "amd64")
    ≡ "Version:        unknown\nGit hash:       HEAD\nBuilt:          now\nGolang version: go1\nOS/Arch:        linux/amd64\n"
unfolding report
report_lem = refl
