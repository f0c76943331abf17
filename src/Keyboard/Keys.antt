-- ===== src/Keyboard/Keys.antt =====
-- internal/keyboard/keyboard.go. A rune is its code point, and a key code a text. The messages of
-- the errors are not modelled, only what they are about.
use packer_qemu_mcp_server.Prelude.{
  ℕ, ◌+◌, ◌==◌, leb, Bool, ◌&&◌, List, [], ◌∷◌, ◌++◌, map, Option, none, some, if◌then◌else◌, Text,
  codes, is_empty, eq_text, to_lower, show_nat, split, trim_space, Outcome, ok, err, then_do,
}

-- The keys held down together.
abbrev pub Press : Type 0
Press = List Text

pub data KeyError : Type 0 where
  untypable : ℕ → KeyError
  empty_name : KeyError
  unknown_key : Text → KeyError

abbrev pub shift : Text
shift = codes "shift"

unfoldable pub find_code : ℕ → List (ℕ × Text) → Option Text
find_code c [] = none
find_code c ((d, name) ∷ rest) = if c == d then some name else find_code c rest

unfoldable pub find_name : Text → List (Text × Text) → Option Text
find_name s [] = none
find_name s ((t, name) ∷ rest) = if eq_text s t then some name else find_name s rest

abbrev pub is_between : ℕ → ℕ → ℕ → Bool
is_between lo hi c = leb lo c && leb c hi

-- The table `unshifted`, as written out.
unfoldable pub plain_symbols : List (ℕ × Text)
plain_symbols =
    (32, codes "spc")
    ∷ (9, codes "tab")
    ∷ (10, codes "ret")
    ∷ (13, codes "ret")
    ∷ (b'-', codes "minus")
    ∷ (b'=', codes "equal")
    ∷ (b'[', codes "bracket_left")
    ∷ (b']', codes "bracket_right")
    ∷ (b'\\', codes "backslash")
    ∷ (b';', codes "semicolon")
    ∷ (39, codes "apostrophe")
    ∷ (b'`', codes "grave_accent")
    ∷ (b',', codes "comma")
    ∷ (b'.', codes "dot")
    ∷ (b'/', codes "slash")
    ∷ []

-- The table `shifted`, as written out.
unfoldable pub shifted_symbols : List (ℕ × Text)
shifted_symbols =
    (b'_', codes "minus")
    ∷ (b'+', codes "equal")
    ∷ (b'{', codes "bracket_left")
    ∷ (b'}', codes "bracket_right")
    ∷ (b'|', codes "backslash")
    ∷ (b':', codes "semicolon")
    ∷ (b'"', codes "apostrophe")
    ∷ (b'~', codes "grave_accent")
    ∷ (b'<', codes "comma")
    ∷ (b'>', codes "dot")
    ∷ (b'?', codes "slash")
    ∷ (b'!', codes "1")
    ∷ (b'@', codes "2")
    ∷ (b'#', codes "3")
    ∷ (b'$', codes "4")
    ∷ (b'%', codes "5")
    ∷ (b'^', codes "6")
    ∷ (b'&', codes "7")
    ∷ (b'*', codes "8")
    ∷ (b'(', codes "9")
    ∷ (b')', codes "0")
    ∷ []

-- `unshifted` and `shifted` with what `init` adds: the letters and the digits.
unfoldable pub unshifted : ℕ → Option Text
unfolding find_code plain_symbols
unshifted c =
    if is_between b'a' b'z' c
    then some (c ∷ [])
    else if is_between b'0' b'9' c
    then some (c ∷ [])
    else find_code c plain_symbols

unfoldable pub shifted : ℕ → Option Text
unfolding find_code shifted_symbols
shifted c = if is_between b'A' b'Z' c then some ((c + 32) ∷ []) else find_code c shifted_symbols

-- The table `named`, as written out.
named_keys : List (Text × Text)
named_keys =
    map (λ (s, t). (codes s, codes t))
      (("enter", "ret")
        ∷ ("return", "ret")
        ∷ ("ret", "ret")
        ∷ ("space", "spc")
        ∷ ("spacebar", "spc")
        ∷ ("spc", "spc")
        ∷ ("esc", "esc")
        ∷ ("escape", "esc")
        ∷ ("tab", "tab")
        ∷ ("backspace", "backspace")
        ∷ ("bs", "backspace")
        ∷ ("delete", "delete")
        ∷ ("del", "delete")
        ∷ ("insert", "insert")
        ∷ ("ins", "insert")
        ∷ ("up", "up")
        ∷ ("down", "down")
        ∷ ("left", "left")
        ∷ ("right", "right")
        ∷ ("home", "home")
        ∷ ("end", "end")
        ∷ ("pageup", "pgup")
        ∷ ("pgup", "pgup")
        ∷ ("pagedown", "pgdn")
        ∷ ("pgdn", "pgdn")
        ∷ ("shift", "shift")
        ∷ ("leftshift", "shift")
        ∷ ("rightshift", "shift_r")
        ∷ ("ctrl", "ctrl")
        ∷ ("control", "ctrl")
        ∷ ("leftctrl", "ctrl")
        ∷ ("rightctrl", "ctrl_r")
        ∷ ("alt", "alt")
        ∷ ("leftalt", "alt")
        ∷ ("rightalt", "alt_r")
        ∷ ("meta", "meta_l")
        ∷ ("super", "meta_l")
        ∷ ("leftsuper", "meta_l")
        ∷ ("rightsuper", "meta_r")
        ∷ ("command", "meta_l")
        ∷ ("leftcommand", "meta_l")
        ∷ ("rightcommand", "meta_r")
        ∷ ("option", "alt")
        ∷ ("leftoption", "alt")
        ∷ ("rightoption", "alt_r")
        ∷ ("menu", "menu")
        ∷ ("print", "print")
        ∷ ("sysrq", "sysrq")
        ∷ ("pause", "pause")
        ∷ ("capslock", "caps_lock")
        ∷ ("numlock", "num_lock")
        ∷ ("scrolllock", "scroll_lock")
        ∷ ("minus", "minus")
        ∷ ("equal", "equal")
        ∷ ("comma", "comma")
        ∷ ("dot", "dot")
        ∷ ("slash", "slash")
        ∷ ("backslash", "backslash")
        ∷ ("semicolon", "semicolon")
        ∷ ("apostrophe", "apostrophe")
        ∷ ("grave", "grave_accent")
        ∷ ("bracketleft", "bracket_left")
        ∷ ("bracketright", "bracket_right")
        ∷ ("kpenter", "kp_enter")
        ∷ ("kpadd", "kp_add")
        ∷ ("kpsubtract", "kp_subtract")
        ∷ ("kpmultiply", "kp_multiply")
        ∷ ("kpdivide", "kp_divide")
        ∷ ("kpdecimal", "kp_decimal")
        ∷ [])

-- What `init` adds to it: the letters, the digits, the function keys and the keypad.
init_keys : List (Text × Text)
unfolding show_nat
init_keys =
    map (λ c. (c ∷ [], c ∷ [])) (codes "abcdefghijklmnopqrstuvwxyz0123456789")
    ++ (map (λ n. (codes "f" ++ show_nat n, codes "f" ++ show_nat n))
          (1 ∷ 2 ∷ 3 ∷ 4 ∷ 5 ∷ 6 ∷ 7 ∷ 8 ∷ 9 ∷ 10 ∷ 11 ∷ 12 ∷ [])
        ++ map (λ n. (codes "kp" ++ show_nat n, codes "kp_" ++ show_nat n))
            (0 ∷ 1 ∷ 2 ∷ 3 ∷ 4 ∷ 5 ∷ 6 ∷ 7 ∷ 8 ∷ 9 ∷ []))

unfoldable pub named : Text → Option Text
unfolding named_keys init_keys find_name
named s = find_name s (named_keys ++ init_keys)

abbrev or_shifted : ℕ → Option Text → Option Text → Outcome KeyError Press
or_shifted c (some code) other = ok (code ∷ [])
or_shifted c none (some code) = ok (shift ∷ code ∷ [])
or_shifted c none none = err (untypable c)

-- The press that types one character.
unfoldable pub typed : ℕ → Outcome KeyError Press
unfolding unshifted shifted
typed c = or_shifted c (unshifted c) (shifted c)

-- `Type`: the loop appends, and ends at the first character that cannot be typed.
unfoldable pub type_from : List Press → List ℕ → Outcome KeyError (List Press)
type_from presses [] = ok presses
type_from presses (c ∷ s) = then_do (typed c) (λ press. type_from (presses ++ (press ∷ [])) s)

unfoldable pub type_text : List ℕ → Outcome KeyError (List Press)
unfolding type_from
type_text text = type_from [] text

abbrev or_unknown : Text → Option Text → Outcome KeyError Text
or_unknown part none = err (unknown_key part)
or_unknown part (some code) = ok code

unfoldable pub combine : Press → List Text → Outcome KeyError Press
unfolding named
combine press [] = ok press
combine press (part ∷ parts) =
    then_do (or_unknown part (named (to_lower (trim_space part))))
      (λ code. combine (press ++ (code ∷ [])) parts)

-- A name may be a combination, whose parts are joined by a plus sign.
unfoldable pub combination : Text → Outcome KeyError Press
unfolding combine
combination name =
    if is_empty (trim_space name) then err empty_name else combine [] (split name b'+')

unfoldable pub keys_from : List Press → List Text → Outcome KeyError (List Press)
unfolding combination
keys_from presses [] = ok presses
keys_from presses (name ∷ names) =
    then_do (combination name) (λ press. keys_from (presses ++ (press ∷ [])) names)

unfoldable pub keys : List Text → Outcome KeyError (List Press)
unfolding keys_from
keys names = keys_from [] names
