-- ===== src/Guest/Input.antt =====
-- internal/guest/guest.go: what is sent to a guest: `Type` and `Point`, with `Screen`.
--
-- What the monitor answers to each press is a list of answers, `none` for a press that it takes;
-- behind its end the monitor takes them.
use packer_qemu_mcp_server.Prelude.{
  ℕ, zero, suc, ℤ, pos, negsuc, ltb, Bool, false, ◌&&◌, List, [], ◌∷◌, ◌++◌, Option, none, some,
  if◌then◌else◌, length, Text, codes, show_nat,
}
use packer_qemu_mcp_server.Keyboard.Keys.{Press}
use packer_qemu_mcp_server.Qmp.Commands.{Command, Floats, send_keys, click}
use packer_qemu_mcp_server.Qmp.Sessions.{Failure, reworded}

pub data Sending : Type 0 where
  slept : ℕ → Sending
  sent : Command → Sending

unfoldable pub max : ℕ → ℕ → ℕ
max a b = if ltb a b then b else a

unfoldable pub next_answer : List (Option Failure) → Option Failure × List (Option Failure)
next_answer [] = (none, [])
next_answer (a ∷ others) = (a, others)

unfoldable pub after_presses : ℕ → ℕ → Text → Text
after_presses at all e =
    codes "after "
    ++ (show_nat at ++ (codes " of " ++ (show_nat all ++ (codes " key presses: " ++ e))))

-- The gap in front of a press, but for the first.
unfoldable pub pause_at : ℕ → ℕ → ℕ → List Sending
unfolding max
pause_at zero hold gap = []
pause_at (suc at) hold gap = slept (max gap hold) ∷ []

-- `Type`, from the press of index `at` on, of `all` presses: what is done, and the error.
unfoldable pub press_from :
    ℕ → ℕ → ℕ → ℕ → List Press → List (Option Failure) → List Sending × Option Failure
unfolding pause_at next_answer after_presses
press_from at all hold gap [] answers = ([], none)
press_from at all hold gap (press ∷ presses) answers =
    let (answer, others) = next_answer answers in
    let (rest, err) = press_from (suc at) all hold gap presses others in
    let here = pause_at at hold gap ++ (sent (send_keys press hold) ∷ []) in
    elim answer [
      | some e ↦ (here, some (reworded (after_presses at all) e))
      | none ↦ (here ++ rest, err)
    ]

unfoldable pub type_keys :
    ℕ → ℕ → List Press → List (Option Failure) → List Sending × Option Failure
unfolding press_from
type_keys hold gap presses answers = press_from 0 (length presses) hold gap presses answers

pub record Screen : Type 0 where
  pub path : Text
  pub width : ℕ
  pub height : ℕ

-- `Holds`
unfoldable pub below : ℤ → ℕ → Bool
below (pos x) w = ltb x w
below (negsuc x) w = false

unfoldable pub holds : ℤ → ℤ → Screen → Bool
unfolding below
holds x y screen = below x screen.width && below y screen.height

-- `Point`, with `across`: the command that it sends.
unfoldable pub point {ℓ} : {F : Type ℓ} → Floats F → Screen → ℤ → ℤ → Text → ℕ → Command
unfolding click
point floats screen x y button times =
    click floats (floats.quotient x (pos screen.width)) (floats.quotient y (pos screen.height))
      button times
