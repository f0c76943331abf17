-- ===== src/BuildState/Replaced.antt =====
-- internal/buildstate/buildstate.go: a reader of a file that `writeJSON` replaces sees the old
-- contents or the new ones.
use packer_qemu_mcp_server.Prelude.{
  ◌≡◌, ◌⊎◌, inl, inr, refl, ap, arith, false, none, some, Text, codes, eq_text, eq_text_refl,
  eq_text_sound, Outcome, ok, err, length, length-append, Bool-cases, Option-cases,
}
use packer_qemu_mcp_server.BuildState.Files.{
  Files, put, temporary, rename, with_newline, Writes, write_json, read_json,
}

-- A file reads as before or as `content`.
abbrev pub OldOrNew : Text → Text → Files → Files → Type 0
OldOrNew name content old files = (files name ≡ old name) ⊎ (files name ≡ some content)

temporary_other : (name : Text) → eq_text name (temporary name) ≡ false
unfolding temporary
temporary_other name = elim (Bool-cases (eq_text name (temporary name))) [
  | inr e ↦ e
  | inl e ↦ absurd (
      omega (
        arith,
        ap length (eq_text_sound name (temporary name) e),
        length-append name (codes ".new"),
      ))
]

put_other :
    (name content : Text) (files : Files) → put (temporary name) content files name ≡ files name
unfolding put
put_other name content files = rw (temporary_other name) refl

rename_new :
    (from name content : Text) (files : Files) → rename from name content files name ≡ some content
unfolding rename put
rename_new from name content files = rw (eq_text_refl name) refl

read_json_found {ℓ} :
    {A : Type ℓ} (decode : Text → A → A) (name content : Text) (blank value : A) (files : Files)
    → files name ≡ some content
    → decode content blank ≡ value
    → read_json decode name blank files ≡ value
unfolding read_json
read_json_found decode name content blank value files hf hd = rw (read_json, hf) hd

read_json_same {ℓ} :
    {A : Type ℓ} (decode : Text → A → A) (name : Text) (blank : A) (new old : Files)
    → new name ≡ old name
    → read_json decode name blank new ≡ read_json decode name blank old
unfolding read_json
read_json_same decode name blank new old h = rw (read_json, h) refl

-- What `writeJSON` wrote, `readJSON` reads, whatever was there, if decoding the encoded value, with
-- a newline behind it, into the variable gives the value; and a `writeJSON` that fails leaves what `readJSON` gives as it
-- was.
pub read_json-write_json {ℓ} :
    {A : Type ℓ} (decode : Text → A → A) (name : Text) (encoded : Outcome Text Text)
    (answers : Writes) (partial : Text) (blank value : A) (files : Files)
    → ((text : Text) → encoded ≡ ok text → decode (with_newline text) blank ≡ value)
    → read_json decode name blank ((write_json name encoded answers partial files).0)
      ≡ elim (write_json name encoded answers partial files).1 [
        | none ↦ value
        | some e ↦ read_json decode name blank files
      ]
unfolding write_json read_json
read_json-write_json decode name (err e) answers partial blank value files h = refl
read_json-write_json decode name (ok text) answers partial blank value files h =
    elim (Option-cases answers.write) [
      | inr (e, he) ↦ rw he (
          read_json_same decode name blank (put (temporary name) partial files) files
            (put_other name partial files))
      | inl he ↦ elim (Option-cases answers.move) [
        | inr (x, hx) ↦
            rw (he, hx)
              (read_json_same decode name blank (put (temporary name) (with_newline text) files)
                files (put_other name (with_newline text) files))
        | inl hx ↦
            let written = put (temporary name) (with_newline text) files in
            rw (he, hx)
              (read_json_found decode name (with_newline text) blank value
                (rename (temporary name) name (with_newline text) written)
                (rename_new (temporary name) name (with_newline text) written) (h text refl))
      ]
    ]
