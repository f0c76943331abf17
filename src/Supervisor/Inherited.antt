-- ===== src/Supervisor/Inherited.antt =====
-- internal/supervisor/supervisor.go: what a variable stands for in a build, by `command`.
use packer_qemu_mcp_server.Prelude.{
  ◌≡◌, refl, ap, ◌∙◌, sym, arith, inl, inr, Bool, not, ◌&&◌, true, false, ◌==◌, List, [], ◌∷◌, ◌++◌,
  Option, none, some, if◌then◌else◌, Text, codes, map, All, strip_prefix, eq_text, eq_text_sound,
  Bool-cases,
}
use packer_qemu_mcp_server.Builds.Requests.{Variables}
use packer_qemu_mcp_server.BuildState.Roots.{Dir}
use packer_qemu_mcp_server.Supervisor.Environments.{entry, harness, environment, later, effective}

-- The value of a name in a map, as a list of its entries.
unfoldable pub find : Text → Variables → Option Text
find name [] = none
find name ((n, v) ∷ env) = let rest = find name env in if eq_text n name then some v else rest

-- A name without the equals sign.
abbrev is_name : Text → Bool
is_name [] = true
is_name (c ∷ t) = not (c == 61) && is_name t

abbrev pub IsName : Text → Type 0
IsName t = is_name t ≡ true

-- Entries with names, no two the same.
abbrev pub AreDistinct : Variables → Type 0
AreDistinct [] = Unit
AreDistinct ((n, v) ∷ env) = IsName n × All (λ e. eq_text e.0 n ≡ false) env × AreDistinct env

strip_prefix-entry :
    (n v name : Text)
    → IsName n
    → IsName name
    → strip_prefix (entry (n, v)) (name ++ codes "=") ≡ (if eq_text n name then some v else none)
unfolding strip_prefix entry eq_text
strip_prefix-entry [] v [] hn h = refl
strip_prefix-entry [] v (d ∷ name) hn h = ground (arith, h)
strip_prefix-entry (c ∷ n) v [] h hn = ground (arith, h)
strip_prefix-entry (c ∷ n) v (d ∷ name) h k =
    let hs : IsName n = ground (arith, h) in
    let ks : IsName name = ground (arith, k) in ground (arith, strip_prefix-entry n v name hs ks)

find-absent :
    (name : Text) (env : Variables) → All (λ e. eq_text e.0 name ≡ false) env → find name env ≡ none
unfolding find
find-absent name [] h = refl
find-absent name ((n, v) ∷ env) (h, hs) = rw (find, h) (find-absent name env hs)

or_later : (a : Option Text) → a ≡ later none a
or_later none = refl
or_later (some v) = refl

later_assoc : (a b c : Option Text) → later (later a b) c ≡ later a (later b c)
later_assoc a b none = refl
later_assoc a b (some v) = refl

effective-append :
    (name : Text) (xs ys : List Text)
    → effective name (xs ++ ys) ≡ later (effective name xs) (effective name ys)
unfolding effective
effective-append name [] ys = or_later (effective name ys)
effective-append name (x ∷ xs) ys =
    ap (later (strip_prefix x (name ++ codes "="))) (effective-append name xs ys)
    ∙ sym (later_assoc (strip_prefix x (name ++ codes "=")) (effective name xs) (effective name ys))

effective-entries :
    (name : Text) (env : Variables)
    → IsName name
    → AreDistinct env
    → effective name (map entry env) ≡ find name env
unfolding effective find
effective-entries name [] h d = refl
effective-entries name ((n, v) ∷ env) h (hn, fresh, d) =
    rw (strip_prefix-entry n v name hn h, effective-entries name env h d)
      (elim (Bool-cases (eq_text n name)) [
        | inl e ↦
            let absent = find-absent n env fresh in
            let same = ap (λ x. find x env) (eq_text_sound n name e) in
            rw (e, sym same ∙ absent) refl
        | inr e ↦ rw (e) (sym (or_later (find name env)))
      ])

harness-AreDistinct : (dir : Dir) → AreDistinct (harness dir)
unfolding harness eq_text
harness-AreDistinct dir = (refl, (refl, (refl, tt)), (refl, (refl, tt), (refl, tt, tt)))

-- What a variable stands for in a build, in whatever order the request's variables are ranged over:
-- what the request says, or else what the harness says, or else what the supervisor's own
-- environment says. No two variables of the request have one name, and no name holds the equals
-- sign.
pub effective-environment :
    (own : List Text) (dir : Dir) (env : Variables) (name : Text)
    → IsName name
    → AreDistinct env
    → effective name (environment own dir env)
      ≡ later (effective name own) (later (find name (harness dir)) (find name env))
unfolding environment
effective-environment own dir env name h d =
    effective-append name own (map entry (harness dir) ++ map entry env)
    ∙ ap (later (effective name own)) (
        effective-append name (map entry (harness dir)) (map entry env) ∙ (λ i.
          later (effective-entries name (harness dir) h (harness-AreDistinct dir) i)
            (effective-entries name env h d i)))
