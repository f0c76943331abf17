-- ===== src/BuildState/Safety.antt =====
-- internal/buildstate/buildstate.go: what `Create` and `Open` make sure of, before a build is
-- given a directory.
use packer_qemu_mcp_server.Prelude.{
  ℕ, ◌+◌, ◌%◌, ◌≤◌, ◌<◌, ◌≡◌, refl, sym, subst, inl, inr, arith, Bool, true, false, List, [], ◌∷◌,
  ◌++◌, Option, none, some, length, length-append, Text, codes, ok, Option-cases, Bool-cases,
  eq_text, All,
}
use packer_qemu_mcp_server.BuildState.Names.{matches_id, all_id, valid_id, new_id}
use packer_qemu_mcp_server.BuildState.Slugs.{IsByte, valid_id-new_id, length-new_id}
use packer_qemu_mcp_server.BuildState.Roots.{
  Dir, dir_of, join_path, monitor_socket, control_socket, screenshot_dir, socket_path_limit,
  check_sockets, check_socket_paths, Stat, missing, unreadable, info, System, foreign, inspect,
  prepare_at, prepare, make_dirs, then_make, create,
}

-- A root that is not there yet, or a directory of ours that nobody else can read or write.
abbrev pub IsPrivate : ℕ → Stat → Type 0
IsPrivate uid missing = Unit
IsPrivate uid (unreadable e) = true ≡ false
IsPrivate uid (info is_dir owner perm) =
    (is_dir ≡ true) × (foreign uid owner ≡ none) × (perm % 64 ≡ 0)

-- What holds of a build's directory that `Create` returns.
pub record IsSafe (root id : Text) (sys : System) (d : Dir) (made : List Text) : Type 0 where
  named : matches_id id ≡ true
  placed : d ≡ dir_of root id
  monitored : length (monitor_socket d) < socket_path_limit
  controlled : length (control_socket d) < socket_path_limit
  guarded : IsPrivate sys.uid sys.stat

inspect-IsPrivate :
    (path : Text) (uid : ℕ) (is_dir : Bool) (owner : Option ℕ) (perm : ℕ)
    → inspect path uid is_dir owner perm ≡ none
    → IsPrivate uid (info is_dir owner perm)
unfolding inspect
inspect-IsPrivate path uid is_dir owner perm h = ground (arith, h)

prepare_at-IsPrivate :
    (root : Text) (sys : System) (stat : Stat)
    → (prepare_at root sys stat).0 ≡ none
    → IsPrivate sys.uid stat
unfolding prepare_at
prepare_at-IsPrivate root sys missing h = tt
prepare_at-IsPrivate root sys (unreadable e) h = ground (arith, h)
prepare_at-IsPrivate root sys (info is_dir owner perm) h =
    inspect-IsPrivate root sys.uid is_dir owner perm h

check_socket_paths-lengths :
    (d : Dir)
    → check_socket_paths d ≡ none
    → (length (monitor_socket d) < socket_path_limit)
      × (length (control_socket d) < socket_path_limit)
unfolding check_socket_paths check_sockets
check_socket_paths-lengths d h = ground (arith, h)

valid_id-matches_id : (id : Text) → valid_id id ≡ none → matches_id id ≡ true
unfolding valid_id
valid_id-matches_id id h = ground (arith, h)

make_dirs_ok :
    (sys : System) (d e : Dir) (made all : List Text)
    → make_dirs sys d made ≡ (ok e, all)
    → (d ≡ e) × (all ≡ made ++ (d.path ∷ screenshot_dir d ∷ []))
unfolding make_dirs
make_dirs_ok sys d e made all h = ground (arith, h)

create_made :
    (root id : Text) (sys : System) (d : Dir) (made : List Text) (x : Option Text × List Text)
    → then_make sys (dir_of root id) x ≡ (ok d, made)
    → (x.0 ≡ none) × (dir_of root id ≡ d)
unfolding then_make
create_made root id sys d made (some e, before) h = ground (arith, h)
create_made root id sys d made (none, before) h =
    (refl, (make_dirs_ok sys (dir_of root id) d before made h).0)

-- A directory that `Create` returns is the one of the identifier, which `validID` takes; the paths
-- of both of its sockets are short enough for the system, and the root that it lies in was not
-- there before, or is a directory of ours that nobody else can read or write.
pub create-IsSafe :
    (root id : Text) (sys : System) (d : Dir) (made : List Text)
    → create root id sys ≡ (ok d, made)
    → IsSafe root id sys d made
unfolding create prepare
create-IsSafe root id sys d made h = elim (Option-cases (valid_id id)) [
  | inr (e, he) ↦ absurd (ground (arith, h, he))
  | inl hid ↦ elim (Option-cases (check_socket_paths (dir_of root id))) [
    | inr (e, he) ↦ absurd (ground (arith, h, hid, he))
    | inl hs ↦
        let rest : then_make sys (dir_of root id) (prepare root sys) ≡ (ok d, made) =
          rw (create, hid, hs) at h in
        let (fine, same) = create_made root id sys d made (prepare root sys) rest in
        let (monitored, controlled) = check_socket_paths-lengths (dir_of root id) hs in
        record {
          named = valid_id-matches_id id hid;
          placed = sym same;
          monitored = subst (λ x. length (monitor_socket x) < socket_path_limit) same monitored;
          controlled = subst (λ x. length (control_socket x) < socket_path_limit) same controlled;
          guarded = prepare_at-IsPrivate root sys sys.stat fine;
        }
  ]
]

prepare_at_goes :
    (root : Text) (sys : System) (stat : Stat)
    → sys.mkdir_all ≡ none
    → IsPrivate sys.uid stat
    → (prepare_at root sys stat).0 ≡ none
unfolding prepare_at inspect
prepare_at_goes root sys missing hm h = ground (arith, hm)
prepare_at_goes root sys (unreadable e) hm h = ground (arith, h)
prepare_at_goes root sys (info is_dir owner perm) hm (hd, ho, hp) = ground (arith, hd, ho, hp)

length-join_path : (dir name : Text) → length (join_path dir name) ≤ length dir + 1 + length name
unfolding join_path
length-join_path dir name = elim (Bool-cases (eq_text dir (codes "/"))) [
  | inl e ↦ rw e (omega arith)
  | inr e ↦ rw e (omega (arith, length-append dir (codes "/" ++ name)))
]

length-dir_of : (root id : Text) → length (dir_of root id).path ≤ length root + 1 + length id
unfolding dir_of
length-dir_of root id = length-join_path root id

check_socket_paths_goes :
    (d : Dir) → length d.path + 9 < socket_path_limit → check_socket_paths d ≡ none
unfolding check_socket_paths check_sockets monitor_socket control_socket
check_socket_paths_goes d h = ground (
  arith,
  h,
  length-join_path d.path (codes "mon.sock"),
  length-join_path d.path (codes "ctl.sock"),
)

then_make_goes :
    (sys : System) (d : Dir) (x : Option Text × List Text)
    → x.0 ≡ none
    → ((path : Text) → sys.mkdir path ≡ none)
    → (then_make sys d x).0 ≡ ok d
unfolding then_make make_dirs
then_make_goes sys d (some e, made) h hm = ground (arith, h)
then_make_goes sys d (none, made) h hm = rw (make_dirs, hm d.path, hm (screenshot_dir d)) refl

-- Under a root whose path is of 46 bytes at most, that is not there or a directory of ours that
-- nobody else can read or write, `Create` gives a directory to every identifier that `NewID` makes
-- of a time of 15 bytes that an identifier may have and of three random bytes, if the system lets
-- it make directories.
pub create-new_id :
    (root template now : Text) (random : List ℕ) (sys : System)
    → length root ≤ 46
    → length now ≡ 15
    → all_id now ≡ true
    → length random ≡ 3
    → All IsByte random
    → IsPrivate sys.uid sys.stat
    → sys.mkdir_all ≡ none
    → ((path : Text) → sys.mkdir path ≡ none)
    → (create root (new_id template now random) sys).0
      ≡ ok (dir_of root (new_id template now random))
unfolding create prepare
create-new_id root template now random sys hroot hnow hid hrandom hbytes hprivate hall hm =
    let id = new_id template now random in
    let short : length (dir_of root id).path ≤ length root + 1 + length id =
      length-dir_of root id in
    let small = length-new_id template now random in
    rw
      (
        create,
        valid_id-new_id template now random hid hbytes,
        check_socket_paths_goes (dir_of root id)
            (omega (arith, short, small, hroot, hnow, hrandom)),
      )
      (then_make_goes sys (dir_of root id) (prepare root sys)
        (prepare_at_goes root sys sys.stat hall hprivate) hm)
