-- ===== src/Main/Commands.antt =====
-- cmd/packer-qemu-mcp-server/main.go: `run` and the commands that it chooses from.
--
-- What `supervisor.Run` and the server come to are functions: the error, if there is one.
use packer_qemu_mcp_server.Prelude.{
  ◌==◌, ◌||◌, List, [], ◌∷◌, ◌++◌, Option, none, some, if◌then◌else◌, Text, codes, is_empty,
  eq_text, Outcome, ok, err,
}
use packer_qemu_mcp_server.BuildState.Roots.{Dir, at}
use packer_qemu_mcp_server.Builds.Launches.{supervise_command}

-- The two variables of the environment, `none` where one is not set.
pub record Environment : Type 0 where
  pub builds_dir : Option Text
  pub packer_bin : Option Text

abbrev pub default_root : Text
default_root = codes "/tmp/pk-builds"

abbrev pub set_or : Option Text → Text → Text
set_or none default = default
set_or (some value) default = if is_empty value then default else value

-- `root` and `packerBinary`
unfoldable pub root : Environment → Text
root env = set_or env.builds_dir default_root

unfoldable pub packer_binary : Environment → Text
packer_binary env = set_or env.packer_bin (codes "packer")

-- `command`
unfoldable pub command : List Text → Text
command [] = codes "serve"
command (name ∷ rest) = name

-- One argument as the package `flag` reads it: no flag, or the end of the flags, a bad one, or a
-- flag with the value behind its `=`.
pub data Flag : Type 0 where
  no_flag : Flag
  end_of_flags : Flag
  bad_flag : Flag
  flag : Text → Option Text → Flag

unfoldable pub split_equals : Text → Text × Option Text
split_equals [] = ([], none)
split_equals (c ∷ s) =
    let (name, value) = split_equals s in if c == b'=' then ([], some s) else (c ∷ name, value)

unfoldable pub named_flag : Text → Flag
unfolding split_equals
named_flag [] = bad_flag
named_flag (c ∷ s) =
    let (name, value) = split_equals s in
    if c == b'-' || c == b'=' then bad_flag else flag (c ∷ name) value

-- Behind the first dash.
unfoldable pub dashed_flag : Text → Flag
unfolding named_flag
dashed_flag [] = no_flag
dashed_flag (c ∷ s) =
    if c == b'-' then (if is_empty s then end_of_flags else named_flag s) else named_flag (c ∷ s)

unfoldable pub read_flag : Text → Flag
unfolding dashed_flag
read_flag [] = no_flag
read_flag (c ∷ s) = if c == b'-' then dashed_flag s else no_flag

-- What `flags.Parse` answers to a flag other than `dir`.
unfoldable pub undefined_flag : Text → Text
undefined_flag name =
    if eq_text name (codes "help") || eq_text name (codes "h")
    then codes "flag: help requested"
    else codes "flag provided but not defined: -" ++ name

unfoldable pub bad_syntax : Text → Text
bad_syntax arg = codes "bad flag syntax: " ++ arg

-- `flags.Parse` with the one flag `dir`, from the value that it has so far.
unfoldable pub parse_flags : Text → List Text → Outcome Text Text
unfolding read_flag undefined_flag bad_syntax
parse_flags dir [] = ok dir
parse_flags dir (arg ∷ []) = elim (read_flag arg) [
  | no_flag ↦ ok dir
  | end_of_flags ↦ ok dir
  | bad_flag ↦ err (bad_syntax arg)
  | flag name value ↦
      if eq_text name (codes "dir")
      then elim value [ some v ↦ ok v | none ↦ err (codes "flag needs an argument: -dir") ]
      else err (undefined_flag name)
]
parse_flags dir (arg ∷ next ∷ rest) =
    let without = λ (v : Text). parse_flags v (next ∷ rest) in
    let with_next = parse_flags next rest in
    elim (read_flag arg) [
      | no_flag ↦ ok dir
      | end_of_flags ↦ ok dir
      | bad_flag ↦ err (bad_syntax arg)
      | flag name value ↦
          if eq_text name (codes "dir")
          then elim value [ some v ↦ without v | none ↦ with_next ]
          else err (undefined_flag name)
    ]

-- `usage`, with the two variables padded to 14 bytes.
unfoldable pub usage : Text → Text
usage version =
    codes "packer-qemu-mcp-server "
    ++ (version
        ++ (codes
              "\n\n  packer-qemu-mcp-server [serve]           serve the build tools over MCP on stdio\n"
            ++ (codes
                  "  packer-qemu-mcp-server supervise --dir   hold one build's terminal (started for you)\n"
                ++ (codes
                      "  packer-qemu-mcp-server version           print the version (-v, --version)\n"
                    ++ (codes
                          "  packer-qemu-mcp-server help              print this (-h, --help)\n\n"
                        ++ (codes "Environment variables, both optional:\n\n"
                            ++ (codes "  PK_BUILDS_DIR  where builds keep their state (default "
                                ++ (default_root
                                    ++ (codes
                                        ")\n  PACKER_BIN     the packer binary to run (default packer)\n")))))))))

-- What the command comes to.
pub record Ran : Type 0 where
  pub out : Text
  pub error_out : Text
  pub error : Option Text
  -- The build that was supervised, and the root and the packer binary that were served.
  pub supervised : Option Dir
  pub served : Option (Text × Text)

abbrev pub quiet : Ran
quiet = record { out = []; error_out = []; error = none; supervised = none; served = none }

module _ (supervisor_run : Dir → Option Text) (serve_run : Text → Text → Option Text) where
  -- `supervise`
  unfoldable pub supervise : List Text → Ran
  unfolding parse_flags at
  supervise args = elim (parse_flags [] args) [
    | err e ↦ record quiet { error = some e }
    | ok dir ↦
        if is_empty dir
        then record quiet { error = some (codes "supervise needs a --dir") }
        else record quiet { error = supervisor_run (at dir); supervised = some (at dir) }
  ]

  -- `serve`
  unfoldable pub serve : Environment → Ran
  unfolding root packer_binary
  serve env = record quiet {
    error = serve_run (root env) (packer_binary env);
    served = some (root env, packer_binary env);
  }

  -- `run`, of the version.
  unfoldable pub run_command : Environment → Text → Text → List Text → Ran
  unfolding supervise_command supervise serve usage
  run_command env version name rest =
      if eq_text name supervise_command
      then supervise rest
      else if eq_text name (codes "serve")
      then serve env
      else if eq_text name (codes "version")
          || eq_text name (codes "-v")
          || eq_text name (codes "--version")
      then record quiet { out = version ++ codes "\n" }
      else if eq_text name (codes "help")
          || eq_text name (codes "-h")
          || eq_text name (codes "--help")
      then record quiet { out = usage version }
      else record quiet {
        error_out = usage version;
        error = some (codes "unknown command: " ++ name);
      }

  unfoldable pub run : Environment → Text → List Text → Ran
  unfolding run_command command
  run env version [] = run_command env version (command []) []
  run env version (name ∷ rest) = run_command env version (command (name ∷ rest)) rest
