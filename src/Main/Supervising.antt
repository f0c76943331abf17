-- ===== src/Main/Supervising.antt =====
-- internal/builds/launcher.go and cmd/packer-qemu-mcp-server/main.go: the supervisor that a launch
-- starts is that of the build that was launched.
use packer_qemu_mcp_server.Prelude.{
  ℕ, ◌≡◌, refl, ap, ◌∙◌, inl, inr, arith, true, false, List, [], ◌∷◌, ◌++◌, Option, some, Text,
  codes, is_empty, eq_text, trim_right, Bool-cases, ok,
}
use packer_qemu_mcp_server.BuildState.Names.{
  base, has_slash, after_slash, is_slash, is_alnum, is_id, all_id, matches_id,
}
use packer_qemu_mcp_server.BuildState.Roots.{Dir, at, dir_of, join_path}
use packer_qemu_mcp_server.Builds.Launches.{
  LaunchAnswers, launch, launch_command, launch_process, launch_program, supervise_command,
}
use packer_qemu_mcp_server.Main.Commands.{
  Environment, Ran, quiet, read_flag, dashed_flag, named_flag, split_equals, parse_flags, supervise,
  run_command, run, command,
}

-- The last name of a path.
IsName : Text → Type 0
IsName s = (is_empty s ≡ false) × (has_slash s ≡ false)

all_id-has_slash : (s : Text) → all_id s ≡ true → has_slash s ≡ false
unfolding all_id is_id is_alnum has_slash
all_id-has_slash [] h = refl
all_id-has_slash (c ∷ s) h = ground (arith, h, all_id-has_slash s)

matches_id-IsName : (s : Text) → matches_id s ≡ true → IsName s
unfolding IsName matches_id has_slash is_alnum
matches_id-IsName [] h = cc
matches_id-IsName (c ∷ s) h = (refl, ground (arith, h, all_id-has_slash s))

has_slash_after : (p s : Text) → has_slash (p ++ (b'/' ∷ s)) ≡ true
unfolding has_slash
has_slash_after [] s = refl
has_slash_after (c ∷ p) s = ground (arith, has_slash_after p s)

after_slash_path : (p s : Text) → has_slash s ≡ false → after_slash (p ++ (b'/' ∷ s)) ≡ s
unfolding after_slash
after_slash_path [] s h = ground (arith, h)
after_slash_path (c ∷ p) s h = ground (arith, has_slash_after p s, after_slash_path p s h)

-- Nothing is trimmed of a path that ends in a name.
trim_right_name : (s : Text) → has_slash s ≡ false → trim_right is_slash s ≡ s
unfolding trim_right is_slash has_slash
trim_right_name [] h = refl
trim_right_name (c ∷ s) h = ground (arith, h, trim_right_name s)

is_empty-append : (p s : Text) → is_empty s ≡ false → is_empty (p ++ s) ≡ false
is_empty-append [] s h = h
is_empty-append (c ∷ p) s h = refl

trim_right_path :
    (p s : Text)
    → is_empty (trim_right is_slash s) ≡ false
    → trim_right is_slash (p ++ s) ≡ p ++ trim_right is_slash s
unfolding trim_right
trim_right_path [] s h = refl
trim_right_path (c ∷ p) s h =
    rw (trim_right_path p s h, is_empty-append p (trim_right is_slash s) h) refl

trim_right_slash : (c : ℕ) (s : Text) → IsName s → trim_right is_slash (c ∷ s) ≡ c ∷ s
unfolding trim_right IsName
trim_right_slash c s h = rw (trim_right_name s h.1, h.0) refl

base_path : (p s : Text) → IsName s → base (p ++ (b'/' ∷ s)) ≡ s
unfolding base IsName
base_path p s h =
    let whole : trim_right is_slash (p ++ (b'/' ∷ s)) ≡ p ++ (b'/' ∷ s) =
      trim_right_path p (b'/' ∷ s) (ap is_empty (trim_right_slash b'/' s h))
      ∙ ap (λ x. p ++ x) (trim_right_slash b'/' s h) in
    let here = is_empty-append p (b'/' ∷ s) refl in rw (whole, here) (after_slash_path p s h.1)

-- The directory that a supervisor is told of is the one of the identifier.
at-join_path : (root id : Text) → matches_id id ≡ true → at (join_path root id) ≡ dir_of root id
unfolding at join_path dir_of
at-join_path root id h = elim (Bool-cases (eq_text root (codes "/"))) [
  | inl e ↦ rw e (
      ap (λ x. record { path = codes "/" ++ id; id = x })
        (base_path [] id (matches_id-IsName id h)))
  | inr e ↦ rw e (
      ap (λ x. record { path = root ++ (b'/' ∷ id); id = x })
        (base_path root id (matches_id-IsName id h)))
]

launch_started :
    (configured : Text) (dir : Dir) (o : LaunchAnswers) (program : Text) (args : List Text)
    (error : Option Text)
    → launch configured dir o ≡ (some (program ∷ args), error)
    → args ≡ supervise_command ∷ codes "--dir" ∷ dir.path ∷ []
unfolding launch launch_program launch_process launch_command
launch_started configured dir o program args error h = ground (arith, h)

parse_flags_dir : (path : Text) → parse_flags [] (codes "--dir" ∷ path ∷ []) ≡ ok path
unfolding parse_flags read_flag dashed_flag named_flag split_equals eq_text
parse_flags_dir path = refl

is_empty-join_path : (root id : Text) → is_empty (join_path root id) ≡ false
unfolding join_path
is_empty-join_path root id = elim (Bool-cases (eq_text root (codes "/"))) [
  | inl e ↦ rw e refl
  | inr e ↦ rw e (is_empty-append root (codes "/" ++ id) refl)
]

supervise_dir :
    (supervisor_run : Dir → Option Text) (serve_run : Text → Text → Option Text) (dir : Dir)
    → is_empty dir.path ≡ false
    → at dir.path ≡ dir
    → supervise supervisor_run serve_run (codes "--dir" ∷ dir.path ∷ [])
      ≡ record quiet { error = supervisor_run dir; supervised = some dir }
unfolding supervise
supervise_dir supervisor_run serve_run dir full same =
    let ran : Dir → Ran = λ d. record quiet { error = supervisor_run d; supervised = some d } in
    let there : supervise supervisor_run serve_run (codes "--dir" ∷ dir.path ∷ [])
        ≡ ran (at dir.path) =
      rw (supervise, parse_flags_dir dir.path, full) refl in
    there ∙ ap ran same

-- A supervisor that is told of a path runs on the directory at it.
supervised_dir :
    (supervisor_run : Dir → Option Text) (serve_run : Text → Text → Option Text) (env : Environment)
    (version : Text) (dir : Dir)
    → is_empty dir.path ≡ false
    → at dir.path ≡ dir
    → run supervisor_run serve_run env version (supervise_command ∷ codes "--dir" ∷ dir.path ∷ [])
      ≡ record quiet { error = supervisor_run dir; supervised = some dir }
unfolding run run_command supervise_command command eq_text
supervised_dir supervisor_run serve_run env version dir full same =
    supervise_dir supervisor_run serve_run dir full same

-- A process that `Launch` started for the directory of an identifier that `validID` takes runs the
-- supervisor of that very directory, with the same path and identifier, and its error is the
-- supervisor's; it serves nothing and prints nothing.
pub run-launch :
    (supervisor_run : Dir → Option Text) (serve_run : Text → Text → Option Text)
    (configured root id : Text) (o : LaunchAnswers) (program : Text) (args : List Text)
    (error : Option Text) (env : Environment) (version : Text)
    → matches_id id ≡ true
    → launch configured (dir_of root id) o ≡ (some (program ∷ args), error)
    → run supervisor_run serve_run env version args
      ≡ record quiet { error = supervisor_run (dir_of root id); supervised = some (dir_of root id) }
unfolding dir_of
run-launch supervisor_run serve_run configured root id o program args error env version hid h =
    let dir = dir_of root id in
    rw (launch_started configured dir o program args error h) (
      supervised_dir supervisor_run serve_run env version dir (is_empty-join_path root id)
        (at-join_path root id hid))
