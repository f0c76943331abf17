-- ===== src/Builds/Goes.antt =====
-- internal/builds/builds.go: when `Start` gives a build.
use packer_qemu_mcp_server.Prelude.{
  ◌≤◌, ◌≡◌, refl, ap, ◌∙◌, arith, true, false, List, Option, none, some, Text, Outcome, ok, err,
  All, length,
}
use packer_qemu_mcp_server.BuildState.States.{Meta}
use packer_qemu_mcp_server.BuildState.Names.{new_id, all_id}
use packer_qemu_mcp_server.BuildState.Slugs.{IsByte}
use packer_qemu_mcp_server.BuildState.Roots.{Dir, create, dir_of}
use packer_qemu_mcp_server.BuildState.Safety.{IsPrivate, create-new_id}
use packer_qemu_mcp_server.BuildState.Stores.{meta_file}
use packer_qemu_mcp_server.BuildState.Files.{Files, Writes, write_json}
use packer_qemu_mcp_server.Builds.Requests.{Request}
use packer_qemu_mcp_server.Builds.Launches.{
  LaunchAnswers, executable, launch, launch_process, launch_program,
}
use packer_qemu_mcp_server.Builds.Waits.{await, await_startup}
use packer_qemu_mcp_server.Builds.Starts.{
  Service, StartAnswers, Build, no_files, meta_of, then_await, then_launch, then_write, start,
}

ok_injective : (a b : Dir) → ◌≡◌ {A = Outcome Text Dir} (ok a) (ok b) → a ≡ b
ok_injective a b h = cc

-- A world that lets a build start: the template is there, the files can be written, this program
-- can be run again, and the build is reached and still runs when it has been watched.
pub record LetsStart (o : StartAnswers) (template : Text) : Type 0 where
  pub found : o.absolute ≡ ok template
  pub readable : o.stat ≡ none
  pub stamped : length o.stamp ≡ 15
  pub stamp_id : all_id o.stamp ≡ true
  pub drawn : length o.random ≡ 3
  pub bytes : All IsByte o.random
  pub guarded : IsPrivate o.system.uid o.system.stat
  pub rooted : o.system.mkdir_all ≡ none
  pub makes : (path : Text) → o.system.mkdir path ≡ none
  pub writes : o.writes.write ≡ none
  pub moves : o.writes.move ≡ none
  pub logs : o.launching.log ≡ none
  pub empties : o.launching.null_device ≡ none
  pub starts : o.launching.start ≡ none
  pub releases : o.launching.release ≡ none
  pub reached : await o.up ≡ true
  pub stays : await o.over ≡ false

launch_goes :
    (configured : Text) (dir : Dir) (o : LaunchAnswers) (program : Text)
    → executable configured o ≡ ok program
    → o.log ≡ none
    → o.null_device ≡ none
    → o.start ≡ none
    → o.release ≡ none
    → (launch configured dir o).1 ≡ none
unfolding launch launch_program launch_process
launch_goes configured dir o program hp hl hn hs hr =
    rw (launch, hp, launch_program, hl, hn, launch_process, hs) hr

write_json_goes :
    (name text : Text) (encoded : Outcome Text Text) (answers : Writes) (partial : Text)
    (files : Files)
    → encoded ≡ ok text
    → answers.write ≡ none
    → answers.move ≡ none
    → (write_json name encoded answers partial files).1 ≡ none
unfolding write_json
write_json_goes name text encoded answers partial files he hw hm = rw (he, write_json, hw, hm) refl

then_launch_goes :
    (s : Service) (o : StartAnswers) (b : Build) (made : List Text) (x : Files × Option Text)
    → x.1 ≡ none
    → (launch s.executable b.dir o.launching).1 ≡ none
    → await o.up ≡ true
    → await o.over ≡ false
    → (then_launch s o b made x).0 ≡ ok b
unfolding then_launch then_await await_startup
then_launch_goes s o b made (files, some e) hx hl hu ho = absurd (ground (arith, hx))
then_launch_goes s o b made (files, none) hx hl hu ho =
    rw (hl, then_await, await_startup, hu, ho) refl

module _ (s : Service) (r : Request) (o : StartAnswers) (encode : Meta → Outcome Text Text)
    (text : Meta → Text) (encodes : (m : Meta) → encode m ≡ ok (text m)) where
  then_write_goes :
      (template : Text) (dir : Dir) (x : Outcome Text Dir × List Text) (program : Text)
      → LetsStart o template
      → executable s.executable o.launching ≡ ok program
      → x.0 ≡ ok dir
      → (then_write s r o encode template x).0
        ≡ ok (record { meta = meta_of s r o template dir; dir = dir })
  unfolding then_write
  then_write_goes template dir (err e, made) program lets hp hx = absurd (ground (arith, hx))
  then_write_goes template dir (ok d, made) program lets hp hx =
      let meta = meta_of s r o template d in
      then_launch_goes s o (record { meta = meta; dir = d }) made
        (write_json meta_file (encode meta) o.writes o.partial no_files)
        (write_json_goes meta_file (text meta) (encode meta) o.writes o.partial no_files
          (encodes meta) lets.writes lets.moves)
        (launch_goes s.executable d o.launching program hp lets.logs lets.empties lets.starts
          lets.releases)
        lets.reached lets.stays
      ∙ ap (λ (y : Dir). ok (record { meta = meta_of s r o template y; dir = y }))
          (ok_injective d dir hx)

  pub start_goes :
      (template program : Text)
      → length s.root ≤ 46
      → LetsStart o template
      → executable s.executable o.launching ≡ ok program
      → let dir = dir_of s.root (new_id template o.stamp o.random) in
        (start s r o encode).0 ≡ ok (record { meta = meta_of s r o template dir; dir = dir })
  unfolding start
  start_goes template program hroot lets hp =
      let id = new_id template o.stamp o.random in
      rw (start, lets.found, lets.readable)
        (then_write_goes template (dir_of s.root id) (create s.root id o.system) program lets hp (
          create-new_id s.root template o.stamp o.random o.system hroot lets.stamped lets.stamp_id
            lets.drawn lets.bytes lets.guarded lets.rooted lets.makes))
