-- ===== src/BuildState/Roots.antt =====
-- internal/buildstate/buildstate.go: the directory of all builds, `Root`, with `Create`, `prepare`
-- and `Open`, and the paths in a build's directory, `Dir`.
--
-- What the system answers is an argument, `System`. An error is its text. A directory's path is a
-- clean one, so `filepath.Join` puts a slash between the parts, and none behind the root of all.
use packer_qemu_mcp_server.Prelude.{
  ℕ, ◌+◌, ◌-◌, ◌/◌, ◌%◌, leb, ◌==◌, Bool, not, List, [], ◌∷◌, ◌++◌, Option, none, some,
  if◌then◌else◌, length, Text, codes, quote, show_nat, eq_text, Outcome, ok, err,
}
use packer_qemu_mcp_server.BuildState.Names.{base, valid_id, random_suffix}

unfoldable pub join_path : Text → Text → Text
join_path dir name =
    if eq_text dir (codes "/") then codes "/" ++ name else dir ++ (codes "/" ++ name)

pub record Dir : Type 0 where
  pub path : Text
  pub id : Text

unfoldable pub dir_of : Text → Text → Dir
unfolding join_path
dir_of root id = record { path = join_path root id; id = id }

-- `At`
unfoldable pub at : Text → Dir
unfolding base
at path = record { path = path; id = base path }

unfoldable pub monitor_socket : Dir → Text
unfolding join_path
monitor_socket d = join_path d.path (codes "mon.sock")

unfoldable pub control_socket : Dir → Text
unfolding join_path
control_socket d = join_path d.path (codes "ctl.sock")

unfoldable pub log_path : Dir → Text
unfolding join_path
log_path d = join_path d.path (codes "log")

unfoldable pub supervisor_log_path : Dir → Text
unfolding join_path
supervisor_log_path d = join_path d.path (codes "supervisor.log")

unfoldable pub packer_log_path : Dir → Text
unfolding join_path
packer_log_path d = join_path d.path (codes "packer.log")

unfoldable pub screenshot_dir : Dir → Text
unfolding join_path
screenshot_dir d = join_path d.path (codes "shots")

-- `NewScreenshotPath`, of the time as it formats it and of its random bytes.
unfoldable pub new_screenshot_path : Text → List ℕ → Dir → Text
unfolding screenshot_dir random_suffix join_path
new_screenshot_path now random d =
    join_path (screenshot_dir d) (now ++ (codes "-" ++ (random_suffix random ++ codes ".png")))

-- The longest path of a socket is one byte shorter.
abbrev pub socket_path_limit : ℕ
socket_path_limit = 104

unfoldable pub too_long : Text → Text
too_long socket =
    codes "build directory is too long for a unix socket: "
    ++ (socket
        ++ (codes " is "
            ++ (show_nat (length socket)
                ++ (codes " bytes, the limit is " ++ show_nat (socket_path_limit - 1)))))

unfoldable pub check_sockets : List Text → Option Text
check_sockets [] = none
check_sockets (socket ∷ sockets) =
    let rest = check_sockets sockets in
    if leb socket_path_limit (length socket) then some (too_long socket) else rest

unfoldable pub check_socket_paths : Dir → Option Text
unfolding check_sockets monitor_socket control_socket
check_socket_paths d = check_sockets (monitor_socket d ∷ control_socket d ∷ [])

-- What `os.Stat` says of the root: its owner, where the system tells, and its permissions.
pub data Stat : Type 0 where
  missing : Stat
  unreadable : Text → Stat
  info : Bool → Option ℕ → ℕ → Stat

pub record System : Type 0 where
  pub stat : Stat
  pub uid : ℕ
  pub mkdir_all : Option Text
  -- The answers to `os.Mkdir` of a path, and to `os.Stat` of one.
  pub mkdir : Text → Option Text
  pub exists : Text → Bool

unfoldable pub foreign : ℕ → Option ℕ → Option ℕ
foreign uid none = none
foreign uid (some owner) = if owner == uid then none else some owner

-- `%#o`
unfoldable pub octal : ℕ → Text
octal mode =
    let a = mode / 64 in
    let b = mode / 8 % 8 in
    let c = mode % 8 in
    let digit : ℕ → ℕ = λ d. 48 + d in
    if mode == 0
    then codes "0"
    else if a == 0
    then (if b == 0 then b'0' ∷ digit c ∷ [] else b'0' ∷ digit b ∷ digit c ∷ [])
    else b'0' ∷ digit a ∷ digit b ∷ digit c ∷ []

unfoldable pub inspect : Text → ℕ → Bool → Option ℕ → ℕ → Option Text
unfolding foreign
inspect path uid is_dir owner perm =
    if not is_dir
    then some (codes "build root " ++ (path ++ codes " is not a directory"))
    else elim (foreign uid owner) [
      | some other ↦ some (
          codes "build root "
          ++ (path ++ (codes " belongs to uid " ++ (show_nat other ++ codes ", not to you"))))
      | none ↦
          if perm % 64 == 0
          then none
          else some (
              codes "build root "
              ++ (path
                  ++ (codes " is readable or writable by others (mode "
                      ++ (octal perm ++ codes "); a build's control socket lives in it"))))
    ]

unfoldable pub prepare_at : Text → System → Stat → Option Text × List Text
unfolding inspect
prepare_at root sys missing = elim sys.mkdir_all [
  | some e ↦ (some (codes "creating build root: " ++ e), [])
  | none ↦ (none, root ∷ [])
]
prepare_at root sys (unreadable e) = (some (codes "reading build root: " ++ e), [])
prepare_at root sys (info is_dir owner perm) = (inspect root sys.uid is_dir owner perm, [])

-- `prepare`, with what it makes.
unfoldable pub prepare : Text → System → Option Text × List Text
unfolding prepare_at
prepare root sys = prepare_at root sys sys.stat

abbrev pub creating : Text → Text → Text → Text
creating what id e =
    codes "creating " ++ (what ++ (codes " directory for " ++ (quote id ++ (codes ": " ++ e))))

-- The two directories of a build, behind what was made so far.
unfoldable pub make_dirs : System → Dir → List Text → Outcome Text Dir × List Text
unfolding screenshot_dir
make_dirs sys d made = elim (sys.mkdir d.path) [
  | some e ↦ (err (creating (codes "build") d.id e), made)
  | none ↦ elim (sys.mkdir (screenshot_dir d)) [
    | some e ↦ (err (creating (codes "screenshot") d.id e), made ++ (d.path ∷ []))
    | none ↦ (ok d, made ++ (d.path ∷ screenshot_dir d ∷ []))
  ]
]

unfoldable pub then_make : System → Dir → Option Text × List Text → Outcome Text Dir × List Text
then_make sys d (some e, made) = (err e, made)
then_make sys d (none, made) = make_dirs sys d made

-- `Create`, with the directories that it makes, in order.
unfoldable pub create : Text → Text → System → Outcome Text Dir × List Text
unfolding valid_id dir_of check_socket_paths prepare then_make make_dirs
create root id sys = elim (valid_id id) [
  | some e ↦ (err e, [])
  | none ↦
      let d = dir_of root id in
      elim (check_socket_paths d) [
        | some e ↦ (err e, [])
        | none ↦ then_make sys d (prepare root sys)
      ]
]

-- `Open`
unfoldable pub open_dir : Text → Text → System → Outcome Text Dir
unfolding valid_id dir_of
open_dir root id sys = elim (valid_id id) [
  | some e ↦ err e
  | none ↦
      let d = dir_of root id in
      if sys.exists d.path then ok d else err (codes "no such build " ++ quote id)
]
