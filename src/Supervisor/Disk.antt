-- ===== src/Supervisor/Disk.antt =====
-- internal/supervisor/supervisor.go and internal/buildstate/buildstate.go: the state.json of a build,
-- behind all that its supervisor has published.
use packer_qemu_mcp_server.Prelude.{
  ◌≡◌, refl, subst, ◌∙◌, List, [], ◌∷◌, none, some, Text, Outcome, ok,
}
use packer_qemu_mcp_server.BuildState.States.{State}
use packer_qemu_mcp_server.BuildState.Files.{Files, Writes, with_newline, write_json}
use packer_qemu_mcp_server.BuildState.Stores.{
  Written, state_file, no_state, publish_state, read_state,
}
use packer_qemu_mcp_server.BuildState.Replaced.{read_json-write_json}
use packer_qemu_mcp_server.Supervisor.Machine.{
  Action, settled, stopped, continued, captured, entered, interrupted, published,
}
use packer_qemu_mcp_server.Supervisor.Published.{shown}

-- The files behind what a supervisor has done, the latest first. The world answers the write of
-- each publication; its error is ignored.
unfoldable pub on_disk :
    (State → Outcome Text Text) → (List Action → Written) → List Action → Files → Files
unfolding publish_state
on_disk encode world [] files = files
on_disk encode world (published t ∷ rest) files =
    (publish_state encode (world rest) t.updated_at t (on_disk encode world rest files)).0
on_disk encode world (_ ∷ rest) files = on_disk encode world rest files

-- A write that succeeds.
abbrev pub works : Writes
works = record { write = none; move = none }

module _ (encode : State → Outcome Text Text) (decode : Text → State → State)
    (world : List Action → Written) (files : Files) (t : State) where
  kept :
      (u text : Text)
      → encode t ≡ ok u
      → encode t ≡ ok text
      → decode (with_newline text) no_state ≡ t
      → decode (with_newline u) no_state ≡ t
  kept u text e he hd = cc (e, he, hd)

  read_state-published :
      (rest : List Action) (text : Text)
      → (world rest).0 ≡ works
      → encode t ≡ ok text
      → decode (with_newline text) no_state ≡ t
      → read_state decode (on_disk encode world (published t ∷ rest) files) ≡ t
  unfolding on_disk read_state publish_state write_json
  read_state-published rest text h he hd =
      read_json-write_json decode state_file (encode t) (world rest).0 (world rest).1 no_state t
        (on_disk encode world rest files) (λ u e. kept u text e he hd)
      ∙ (rw (h, he) refl)

  -- A reader finds the state that was published last, if it could be written and is one that the
  -- encoding keeps.
  pub read_state-shown :
      (done : List Action) (text : Text)
      → ((rest : List Action) → (world rest).0 ≡ works)
      → encode t ≡ ok text
      → decode (with_newline text) no_state ≡ t
      → shown done ≡ some t
      → read_state decode (on_disk encode world done files) ≡ t
  unfolding on_disk
  read_state-shown [] text h he hd e = cc
  read_state-shown (settled n ∷ rest) text h he hd e = read_state-shown rest text h he hd e
  read_state-shown (stopped x ∷ rest) text h he hd e = read_state-shown rest text h he hd e
  read_state-shown (continued x ∷ rest) text h he hd e = read_state-shown rest text h he hd e
  read_state-shown (captured p x ∷ rest) text h he hd e = read_state-shown rest text h he hd e
  read_state-shown (entered x ∷ rest) text h he hd e = read_state-shown rest text h he hd e
  read_state-shown (interrupted x ∷ rest) text h he hd e = read_state-shown rest text h he hd e
  read_state-shown (published u ∷ rest) text h he hd e =
      let same : t ≡ u = cc e in
      subst (λ x. read_state decode (on_disk encode world (published x ∷ rest) files) ≡ t) same
        (read_state-published rest text (h rest) he hd)
