-- ===== src/Builds/Requests.antt =====
-- internal/builds/builds.go: a request to start a build, and the command line that it makes.
--
-- A map of variables is the list of its entries, in the order in which they are ranged over, with
-- no name twice.
use packer_qemu_mcp_server.Prelude.{
  ℤ, ltb, Bool, true, false, List, [], ◌∷◌, ◌++◌, Option, if◌then◌else◌, map, Text, codes, is_empty,
  eq_text, or_else,
}
use packer_qemu_mcp_server.BuildState.States.{or_true}
use packer_qemu_mcp_server.BuildState.Roots.{Dir, monitor_socket}

abbrev pub Variables : Type 0
Variables = List (Text × Text)

pub record Request : Type 0 where
  pub template : Text
  pub vars : Variables
  pub working_dir : Text
  pub env : Variables
  pub extra_args : List Text
  pub var_files : List Text
  pub debug : Option Bool
  pub monitor_var : Option Text
  pub freeze : Option Bool
  pub settle : ℤ

abbrev pub default_monitor_var : Text
default_monitor_var = codes "qmp_socket"

-- `monitorVar`
unfoldable pub monitor_variable : Request → Text
monitor_variable r = or_else r.monitor_var default_monitor_var

-- `workingDir`, over `filepath.Dir`.
unfoldable pub working_directory : (Text → Text) → Request → Text → Text
working_directory dir r template = if is_empty r.working_dir then dir template else r.working_dir

-- Go's order of strings.
unfoldable pub before : Text → Text → Bool
before s [] = false
before [] (d ∷ t) = true
before (c ∷ s) (d ∷ t) =
    let rest = before s t in if ltb c d then true else if ltb d c then false else rest

unfoldable pub insert_name : Text → List Text → List Text
unfolding before
insert_name n [] = n ∷ []
insert_name n (x ∷ xs) = let rest = insert_name n xs in if before x n then x ∷ rest else n ∷ x ∷ xs

-- `sort.Strings`
unfoldable pub sort_names : List Text → List Text
unfolding insert_name
sort_names [] = []
sort_names (n ∷ ns) = insert_name n (sort_names ns)

abbrev pub name_of : Text × Text → Text
name_of (n, v) = n

unfoldable pub sorted_names : Variables → List Text
unfolding sort_names
sorted_names vars = sort_names (map name_of vars)

-- `vars[name]`
unfoldable pub value : Variables → Text → Text
unfolding eq_text
value [] name = []
value ((n, v) ∷ vars) name = let rest = value vars name in if eq_text n name then v else rest

unfoldable pub var_files : List Text → List Text
var_files [] = []
var_files (file ∷ files) = codes "-var-file" ∷ file ∷ var_files files

unfoldable pub var_flag : Text → Text → List Text
var_flag name v = codes "-var" ∷ (name ++ (codes "=" ++ v)) ∷ []

unfoldable pub var_flags : Variables → List Text → List Text
unfolding value var_flag
var_flags vars [] = []
var_flags vars (name ∷ names) = var_flag name (value vars name) ++ var_flags vars names

-- `command`, over the service's `packer`.
unfoldable pub command : Text → Request → Dir → Text → List Text
unfolding monitor_variable monitor_socket var_files sorted_names var_flags var_flag
command packer r dir template =
    let debug = if or_true r.debug then codes "-debug" ∷ [] else [] in
    let name = monitor_variable r in
    let monitor = if is_empty name then [] else var_flag name (monitor_socket dir) in
    packer
    ∷ codes "build"
    ∷ (debug
        ++ (monitor
            ++ (var_files r.var_files
                ++ (var_flags r.vars (sorted_names r.vars) ++ (r.extra_args ++ (template ∷ []))))))
