-- ===== src/BuildState/Files.antt =====
-- internal/buildstate/buildstate.go: `writeJSON` and `readJSON`, over the files of one directory.
--
-- A directory is a function from names to contents. `os.WriteFile` truncates the file and writes
-- it piece by piece; `os.Rename` replaces a file at once. The codec of JSON is a parameter.
use packer_qemu_mcp_server.Prelude.{
  ℕ, zero, suc, List, [], ◌∷◌, ◌++◌, Option, none, some, if◌then◌else◌, Text, codes, eq_text,
  Outcome, ok, err, take, length,
}

abbrev pub Files : Type 0
Files = Text → Option Text

unfoldable pub put : Text → Text → Files → Files
unfolding eq_text
put name content files other = if eq_text other name then some content else files other

unfoldable pub remove : Text → Files → Files
unfolding eq_text
remove name files other = if eq_text other name then none else files other

unfoldable pub temporary : Text → Text
temporary name = codes "." ++ (name ++ codes ".new")

-- The directory while a file is written, behind each of its bytes: the first n + 1 states.
unfoldable pub writing : Text → Text → ℕ → Files → List Files
unfolding put
writing name content zero files = put name [] files ∷ []
writing name content (suc n) files =
    writing name content n files ++ (put name (take (suc n) content) files ∷ [])

unfoldable pub rename : Text → Text → Text → Files → Files
unfolding put remove
rename from to content files = put to content (remove from files)

abbrev pub with_newline : Text → Text
with_newline encoded = encoded ++ codes "\n"

-- The states that `writeJSON` takes a directory through, of the encoded value.
unfoldable pub write_states : Text → Text → Files → List Files
unfolding writing rename temporary
write_states name encoded files =
    let content = with_newline encoded in
    files
    ∷ (writing (temporary name) content (length content) files
        ++ (rename (temporary name) name content (put (temporary name) content files) ∷ []))

-- What the system answers to `os.WriteFile` and `os.Rename`.
pub record Writes : Type 0 where
  pub write : Option Text
  pub move : Option Text

-- `writeJSON`: the directory behind it, and the error. A write that fails leaves `partial`.
unfoldable pub write_json : Text → Outcome Text Text → Writes → Text → Files → Files × Option Text
unfolding put rename temporary
write_json name (err e) answers partial files =
    (files, some (codes "encoding " ++ (name ++ (codes ": " ++ e))))
write_json name (ok encoded) answers partial files =
    let content = with_newline encoded in
    elim answers.write [
      | some e ↦ (
        put (temporary name) partial files,
        some (codes "writing " ++ (name ++ (codes ": " ++ e))),
      )
      | none ↦
          let written = put (temporary name) content files in
          elim answers.move [
            | some e ↦ (written, some (codes "replacing " ++ (name ++ (codes ": " ++ e))))
            | none ↦ (rename (temporary name) name content written, none)
          ]
    ]

-- `readJSON` into a variable: `decode` is what `json.Unmarshal`, whose error is ignored, leaves in
-- one. A file that is not there leaves it as it was.
unfoldable pub read_json {ℓ} : {A : Type ℓ} → (Text → A → A) → Text → A → Files → A
read_json decode name value files = elim (files name) [
  | none ↦ value
  | some content ↦ decode content value
]
