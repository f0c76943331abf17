-- ===== src/Builds/Typing.antt =====
-- internal/builds/builds.go and internal/guest/guest.go: what reaches a guest that is typed at.
use packer_qemu_mcp_server.Prelude.{
  ℕ, suc, ◌≡◌, refl, arith, ◌⊎◌, List, [], ◌∷◌, ◌++◌, Option, none, some, Text, ok, length,
}
use packer_qemu_mcp_server.Keyboard.Keys.{Press}
use packer_qemu_mcp_server.Guest.Input.{Sending, slept, sent, next_answer, press_from, type_keys}
use packer_qemu_mcp_server.Qmp.Commands as Commands
use packer_qemu_mcp_server.Qmp.Commands.{Command}
use packer_qemu_mcp_server.Qmp.Sessions.{Failure}
use packer_qemu_mcp_server.Builds.Reports.{View}
use packer_qemu_mcp_server.Builds.Input.{
  InputError, awake, all_presses, after_typing, press_all, press_some, send_keys, key_interval,
}

-- The commands among what is done.
unfoldable pub commands : List Sending → List Command
commands [] = []
commands (slept n ∷ rest) = commands rest
commands (sent c ∷ rest) = c ∷ commands rest

-- What the presses of a typing send.
unfoldable pub wanted : ℕ → List Press → List Command
wanted hold [] = []
wanted hold (press ∷ presses) = Commands.send_keys press hold ∷ wanted hold presses

-- What was sent is what the first presses send, and where there was no error, what all do.
abbrev Typed : ℕ → List Press → List Sending × Option Failure → Type 0
Typed hold presses (done, none) = commands done ≡ wanted hold presses
Typed hold presses (done, some e) =
    (missed : List Command) × (wanted hold presses ≡ commands done ++ missed)

-- What a monitor that takes every press is sent, and that there is no error.
press_from_all :
    (at all hold gap : ℕ) (presses : List Press) → (press_from at all hold gap presses []).1 ≡ none
unfolding press_from next_answer
press_from_all at all hold gap [] = refl
press_from_all at all hold gap (press ∷ presses) = press_from_all (suc at) all hold gap presses

-- What `SendKeys` says, beside what it did. An error of a build that is opened: the keys are
-- unknown and nothing was sent, or the first presses were sent, in order, and none to a guest that
-- was asleep before. No error: all presses were sent, in order, and the guest was awake before and
-- behind them.
abbrev pub Honest : View → View → Text → List Text → ℕ → List Sending × Option InputError → Type 0
Honest before after text names hold (done, none) =
    (presses : List Press) × (all_presses text names ≡ ok presses)
    × (commands done ≡ wanted hold presses)
    × (awake before ≡ none)
    × (awake after ≡ none)
Honest before after text names hold (done, some e) =
    (done ≡ [])
    ⊎ ((presses : List Press) × (missed : List Command) × (all_presses text names ≡ ok presses)
        × (wanted hold presses ≡ commands done ++ missed)
        × (awake before ≡ none))

after_typing_goes :
    (after : View) (presses : List Press) (x : List Sending × Option Failure)
    → awake after ≡ none
    → x.1 ≡ none
    → (after_typing after presses x).1 ≡ none
unfolding after_typing
after_typing_goes after presses (done, none) ha h = rw (after_typing, ha) refl
after_typing_goes after presses (done, some e) ha h = ground (arith, h)

-- A text or keys that can be typed, at a guest that is awake before and behind and whose monitor
-- takes each press, are typed without an error.
pub send_keys_goes :
    (before after : View) (text : Text) (names : List Text) (press : Press) (presses : List Press)
    (hold : ℕ)
    → all_presses text names ≡ ok (press ∷ presses)
    → awake before ≡ none
    → awake after ≡ none
    → (send_keys (ok (before, after)) text names hold []).1 ≡ none
unfolding send_keys press_some press_all type_keys after_typing
send_keys_goes before after text names press presses hold ht hb ha =
    rw (ht, press_all, hb)
      (after_typing_goes after (press ∷ presses) (type_keys hold key_interval (press ∷ presses) [])
        ha (press_from_all 0 (suc (length presses)) hold key_interval (press ∷ presses)))
