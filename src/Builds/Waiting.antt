-- ===== src/Builds/Waiting.antt =====
-- internal/builds/builds.go: when a wait ends, what a listing leaves out, and that a build without
-- a supervisor is reported as such.
use packer_qemu_mcp_server.Prelude.{
  ℤ, ◌+◌, ◌≡◌, refl, sym, append_assoc, codes, inl, inr, ◌⊎◌, arith, Bool, true, false, ◌||◌, not,
  List, [], ◌∷◌, ◌++◌, Text, is_empty, err, length, Bool-cases,
}
use packer_qemu_mcp_server.BuildState.States.{State}
use packer_qemu_mcp_server.Control.Clients.{no_supervisor}
use packer_qemu_mcp_server.Builds.Reports.{
  View, observe, summarise, stale, list_from, unattended, note, status,
}
use packer_qemu_mcp_server.Builds.Waits.{Look}

-- A look at a build that is under way and watched, of a caller who still waits.
pub record IsQuiet (look : Look) : Type 0 where
  pub going : (look.state.paused || look.state.finished) ≡ false
  pub watched : look.listening ≡ true
  pub kept : look.cancelled ≡ false

-- A look that a wait ends at.
abbrev pub EndsWait : Look → Type 0
EndsWait look = ((look.state.paused || look.state.finished) ≡ true) ⊎ (look.listening ≡ false)

-- Nothing is lost of a listing: each build is listed or counted as left out, and none is left out
-- when all are asked for.
pub list_from_lem :
    (all : Bool) (vs : List View)
    → (length (list_from all vs).builds + (list_from all vs).omitted ≡ length vs)
      × ((list_from true vs).omitted ≡ 0)
unfolding list_from
list_from_lem all [] = (refl, refl)
list_from_lem all (v ∷ vs) =
    let (here, none_out) = list_from_lem all vs in
    elim (Bool-cases (all || not (stale v.now (summarise v (observe v).0)))) [
      | inl e ↦ rw e (omega (arith, here), none_out)
      | inr e ↦ rw e (omega (arith, here), none_out)
    ]

pub observe_gone :
    (v : View) (e : Text) → v.live ≡ err (no_supervisor e) → observe v ≡ (v.state, false)
unfolding observe
observe_gone v e h = rw (observe, h) refl

note_gone :
    (s : State) → s.finished ≡ false → (before : Text) × (note s false ≡ before ++ unattended s)
unfolding note
note_gone s h = elim (Bool-cases (is_empty s.note)) [
  | inl e ↦ rw (h, e) ([], refl)
  | inr e ↦ rw (h, e) (s.note ++ codes "; ", sym (append_assoc s.note (codes "; ") (unattended s)))
]

-- A build that has not finished and whose supervisor cannot be reached is reported as unsupervised,
-- in the state last published, and its note ends in the warning that nothing stops it any more.
pub status_unattended :
    (v : View) (lines : ℤ) (e : Text)
    → v.live ≡ err (no_supervisor e)
    → v.state.finished ≡ false
    → ((status v lines).supervised ≡ false)
      × ((status v lines).summary ≡ summarise v v.state)
      × ((before : Text) × ((status v lines).note ≡ before ++ unattended v.state))
unfolding status
status_unattended v lines e hl hf = rw (observe_gone v e hl) (refl, refl, note_gone v.state hf)
