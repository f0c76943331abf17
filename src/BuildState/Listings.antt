-- ===== src/BuildState/Listings.antt =====
-- internal/buildstate/buildstate.go: `Root.List`, which puts the builds that were started last
-- first.
--
-- A build stands with the time it was started at. What `sort.Slice` does with builds of one time
-- is not documented; here they keep the order of the directory.
use packer_qemu_mcp_server.Prelude.{
  ℕ, ◌≤◌, ltb, Bool, List, [], ◌∷◌, if◌then◌else◌, Text, Outcome, ok, err, All,
}
use mathlib.Core.List.Permᴰ
use mathlib.Core.List.{Permᴰ}
use packer_qemu_mcp_server.BuildState.Roots.{Dir, dir_of}

-- An entry of the root: its name, whether it is a directory, and when its metadata says that it
-- was started.
pub record Entry : Type 0 where
  pub name : Text
  pub is_dir : Bool
  pub started : ℕ

pub record Build : Type 0 where
  pub dir : Dir
  pub started : ℕ

unfoldable pub found : Text → List Entry → List Build
unfolding dir_of
found root [] = []
found root (e ∷ es) =
    let rest = found root es in
    if e.is_dir then (record { dir = dir_of root e.name; started = e.started }) ∷ rest else rest

-- `started[i].After(started[j])` decides what comes first.
unfoldable pub insert : Build → List Build → List Build
insert b [] = b ∷ []
insert b (x ∷ xs) =
    let rest = insert b xs in if ltb b.started x.started then x ∷ rest else b ∷ x ∷ xs

unfoldable pub newest_first : List Build → List Build
unfolding insert
newest_first [] = []
newest_first (b ∷ bs) = insert b (newest_first bs)

-- What `os.ReadDir` says of the root.
pub data Entries : Type 0 where
  no_root : Entries
  unread : Text → Entries
  entries : List Entry → Entries

unfoldable pub list : Text → Entries → Outcome Text (List Build)
unfolding newest_first found
list root no_root = ok []
list root (unread e) = err e
list root (entries es) = ok (newest_first (found root es))

-- Nothing further on was started later.
abbrev pub IsNewestFirst : List Build → Type 0
IsNewestFirst [] = Unit
IsNewestFirst (b ∷ bs) = All (λ x. x.started ≤ b.started) bs × IsNewestFirst bs
