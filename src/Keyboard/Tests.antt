-- ===== src/Keyboard/Tests.antt =====
-- Concrete texts and keys.
use packer_qemu_mcp_server.Prelude.{
  ◌≡◌, refl, [], ◌∷◌, codes, ok, split, trim_space, to_lower, eq_text,
}
use packer_qemu_mcp_server.Keyboard.Keys.{keys, named, find_name}

chord :
    keys (codes " Ctrl + ALT+f2" ∷ codes "down" ∷ [])
    ≡ ok ((codes "ctrl" ∷ codes "alt" ∷ codes "f2" ∷ []) ∷ (codes "down" ∷ []) ∷ [])
unfolding keys split trim_space to_lower named find_name eq_text
chord = refl
