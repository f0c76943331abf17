-- ===== src/Builds/Input.antt =====
-- internal/builds/builds.go: what is sent to a guest: `SendKeys`, `Click`, `awake`, and the capture
-- of `Screenshot`.
--
-- A `View` is what is read of the build at one time: the guest is asked how it is before and
-- behind the typing, so there are two.
use packer_qemu_mcp_server.Prelude.{
  ℕ, ℤ, not, List, [], ◌∷◌, ◌++◌, Option, none, some, if◌then◌else◌, Text, codes, length, show_int,
  show_nat, Outcome, ok, err,
}
use packer_qemu_mcp_server.Keyboard.Keys.{Press, KeyError, type_text, keys}
use packer_qemu_mcp_server.Guest.Input.{Sending, type_keys, Screen, holds, point}
use packer_qemu_mcp_server.Qmp.Commands.{Command, Floats}
use packer_qemu_mcp_server.Qmp.Sessions.{Failure, other, reworded}
use packer_qemu_mcp_server.Builds.Reports.{View, monitor_error, refused_click}

pub data InputError : Type 0 where
  no_such_build : Text → InputError
  no_such_key : KeyError → InputError
  refused : Failure → InputError

-- `keyInterval`, in nanoseconds.
abbrev pub key_interval : ℕ
key_interval = 50000000

-- `awake`
unfoldable pub awake : View → Option Failure
unfolding monitor_error
awake v = elim v.condition [
  | err e ↦ some (monitor_error v e (codes "send anything to"))
  | ok c ↦
      if c.running
      then none
      else some (
          other (
            codes "the guest is "
            ++ (c.name
                ++ codes
                    ", so it would not read anything sent to it; continue the build first, or start it with freeze off")))
]

-- What is pressed: the text, and then the named keys.
unfoldable pub all_presses : Text → List Text → Outcome KeyError (List Press)
unfolding type_text keys
all_presses text names = elim (type_text text) [
  | err e ↦ err e
  | ok presses ↦ elim (keys names) [ err e ↦ err e | ok others ↦ ok (presses ++ others) ]
]

unfoldable pub part_way : ℕ → Text → Text
part_way n e =
    codes "all "
    ++ (show_nat n
        ++ (codes " key presses were sent, but the guest stopped reading part way through: " ++ e))

-- `SendKeys` behind the typing, of what it did.
unfoldable pub after_typing :
    View → List Press → List Sending × Option Failure → List Sending × Option InputError
unfolding awake part_way
after_typing after presses (done, some e) = (done, some (refused e))
after_typing after presses (done, none) = elim (awake after) [
  | some e ↦ (done, some (refused (reworded (part_way (length presses)) e)))
  | none ↦ (done, none)
]

-- `SendKeys` behind the two checks of its presses.
unfoldable pub press_all :
    View → View → List Press → ℕ → List (Option Failure) → List Sending × Option InputError
unfolding awake type_keys after_typing
press_all before after presses hold answers = elim (awake before) [
  | some e ↦ ([], some (refused e))
  | none ↦ after_typing after presses (type_keys hold key_interval presses answers)
]

unfoldable pub press_some :
    View
    → View
    → Outcome KeyError (List Press)
    → ℕ
    → List (Option Failure)
    → List Sending × Option InputError
unfolding press_all
press_some before after (err e) hold answers = ([], some (no_such_key e))
press_some before after (ok []) hold answers =
    ([], some (refused (other (codes "nothing to type: give text, keys, or both"))))
press_some before after (ok (press ∷ presses)) hold answers =
    press_all before after (press ∷ presses) hold answers

-- `SendKeys`, of what `Open` gave: its two views, or its error.
unfoldable pub send_keys :
    Outcome Text (View × View)
    → Text
    → List Text
    → ℕ
    → List (Option Failure)
    → List Sending × Option InputError
unfolding all_presses press_some
send_keys (err e) text names hold answers = ([], some (no_such_build e))
send_keys (ok (before, after)) text names hold answers =
    press_some before after (all_presses text names) hold answers

pub record Clicked : Type 0 where
  pub x : ℤ
  pub y : ℤ
  pub screen : Screen

unfoldable pub off_screen : ℤ → ℤ → Screen → Text
off_screen x y screen =
    codes "("
    ++ (show_int x
        ++ (codes ", "
            ++ (show_int y
                ++ (codes ") is not on a screen that is "
                    ++ (show_nat screen.width ++ (codes "x" ++ show_nat screen.height))))))

-- `Click` on a screen: the command that is sent, and the answer, of the monitor's to it.
unfoldable pub click_on {ℓ} :
    {F : Type ℓ}
    → Floats F
    → Screen
    → ℤ
    → ℤ
    → Text
    → ℕ
    → Option Failure
    → Option Command × Outcome InputError Clicked
unfolding holds point refused_click off_screen
click_on floats screen x y button times answer =
    if not (holds x y screen) then (none, err (refused (other (off_screen x y screen)))) else (
      some (point floats screen x y button times),
      elim answer [
        | some e ↦ err (refused (refused_click e))
        | none ↦ ok (record { x = x; y = y; screen = screen })
      ],
    )

-- `Click`, of what `Photograph` gave.
unfoldable pub click {ℓ} :
    {F : Type ℓ}
    → Floats F
    → Outcome Text View
    → Outcome Failure Screen
    → ℤ
    → ℤ
    → Text
    → ℕ
    → Option Failure
    → Option Command × Outcome InputError Clicked
unfolding awake monitor_error click_on
click floats (err e) photo x y button times answer = (none, err (no_such_build e))
click floats (ok v) photo x y button times answer = elim (awake v) [
  | some e ↦ (none, err (refused e))
  | none ↦ elim photo [
    | err e ↦ (none, err (refused (monitor_error v e (codes "photograph"))))
    | ok screen ↦ click_on floats screen x y button times answer
  ]
]

-- `Screenshot`, of what the monitor answered to the capture into `path`.
unfoldable pub screenshot : Outcome Text View → Text → Option Failure → Outcome InputError Text
unfolding monitor_error
screenshot (err e) path answer = err (no_such_build e)
screenshot (ok v) path none = ok path
screenshot (ok v) path (some e) = err (refused (monitor_error v e (codes "photograph")))
