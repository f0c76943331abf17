-- ===== src/Builds/Sorted.antt =====
-- internal/builds/builds.go: the command line does not depend on the order in which Go ranges over
-- the variables (`sortedNames`).
use mathlib.Core.List.{Permᴰ}
use packer_qemu_mcp_server.Prelude.{
  ◌≡◌, refl, ap, ◌∙◌, arith, inl, inr, true, false, List, [], ◌∷◌, map, Text, Bool-cases,
}
use packer_qemu_mcp_server.BuildState.Roots.{Dir}
use packer_qemu_mcp_server.Builds.Requests.{
  Variables, Request, before, insert_name, sort_names, name_of, sorted_names, value, var_flags,
  command,
}

before_asym : (s t : Text) → before s t ≡ true → before t s ≡ false
unfolding before
before_asym s [] h = ground (arith, h)
before_asym [] (d ∷ t) h = refl
before_asym (c ∷ s) (d ∷ t) h = ground (arith, h, before_asym s t)

before_connected : (s t : Text) → before s t ≡ false → before t s ≡ false → s ≡ t
unfolding before
before_connected [] [] h k = refl
before_connected [] (d ∷ t) h k = ground (arith, h)
before_connected (c ∷ s) [] h k = ground (arith, k)
before_connected (c ∷ s) (d ∷ t) h k = ground (arith, h, k, before_connected s t)

before_trans : (x b a : Text) → before x b ≡ false → before x a ≡ true → before b a ≡ true
unfolding before
before_trans x b [] h k = ground (arith, k)
before_trans x [] (e ∷ a) h k = refl
before_trans [] (d ∷ b) (e ∷ a) h k = ground (arith, h)
before_trans (c ∷ x) (d ∷ b) (e ∷ a) h k = ground (arith, h, k, before_trans x b a)

insert_name_nil : (n : Text) → insert_name n [] ≡ n ∷ []
unfolding insert_name
insert_name_nil n = refl

insert_name_after :
    (n x : Text) (xs : List Text)
    → before x n ≡ true
    → insert_name n (x ∷ xs) ≡ x ∷ insert_name n xs
unfolding insert_name
insert_name_after n x xs h = rw (insert_name, h) refl

insert_name_here :
    (n x : Text) (xs : List Text) → before x n ≡ false → insert_name n (x ∷ xs) ≡ n ∷ x ∷ xs
unfolding insert_name
insert_name_here n x xs h = rw (insert_name, h) refl

-- Two names that both belong in front of a list.
two_first :
    (a b : Text) (r : List Text)
    → insert_name a r ≡ a ∷ r
    → insert_name b r ≡ b ∷ r
    → insert_name a (b ∷ r) ≡ insert_name b (a ∷ r)
two_first a b r ha hb = elim (Bool-cases (before b a)) [
  | inl e ↦ rw (insert_name_after a b r e, ha, insert_name_here b a r (before_asym b a e)) refl
  | inr e ↦ elim (Bool-cases (before a b)) [
    | inl f ↦ rw (insert_name_here a b r e, insert_name_after b a r f, hb) refl
    | inr f ↦
        ap (λ x. insert_name x (b ∷ r)) (before_connected a b f e)
        ∙ ap (λ x. insert_name b (x ∷ r)) (before_connected b a e f)
  ]
]

insert_name_comm :
    (a b : Text) (l : List Text) → insert_name a (insert_name b l) ≡ insert_name b (insert_name a l)
insert_name_comm a b [] =
    rw (insert_name_nil a, insert_name_nil b)
      (two_first a b [] (insert_name_nil a) (insert_name_nil b))
insert_name_comm a b (x ∷ xs) = elim (Bool-cases (before x a)) [
  | inl ea ↦ elim (Bool-cases (before x b)) [
    | inl eb ↦
        rw
          (
            insert_name_after a x xs ea,
            insert_name_after b x xs eb,
            insert_name_after a x (insert_name b xs) ea,
            insert_name_after b x (insert_name a xs) eb,
            insert_name_comm a b xs,
          )
          refl
    | inr eb ↦
        rw
          (
            insert_name_after a x xs ea,
            insert_name_here b x xs eb,
            insert_name_after a b (x ∷ xs) (before_trans x b a eb ea),
            insert_name_after a x xs ea,
            insert_name_here b x (insert_name a xs) eb,
          )
          refl
  ]
  | inr ea ↦ elim (Bool-cases (before x b)) [
    | inl eb ↦
        rw
          (
            insert_name_here a x xs ea,
            insert_name_after b x xs eb,
            insert_name_after b a (x ∷ xs) (before_trans x a b ea eb),
            insert_name_after b x xs eb,
            insert_name_here a x (insert_name b xs) ea,
          )
          refl
    | inr eb ↦
        let ha = insert_name_here a x xs ea in
        let hb = insert_name_here b x xs eb in rw (ha, hb) (two_first a b (x ∷ xs) ha hb)
  ]
]

sort_names-Permᴰ : (ns ms : List Text) → Permᴰ ns ms → sort_names ns ≡ sort_names ms
unfolding sort_names
sort_names-Permᴰ ns ms Permᴰ.nil = refl
sort_names-Permᴰ ns ms (Permᴰ.cons {l₁ = tail} {l₂ = tail'} e h) =
    rw (e, sort_names-Permᴰ tail tail' h) refl
sort_names-Permᴰ ns ms (Permᴰ.swap {a' = c} {b' = d} {l = l} e f) =
    rw (e, f) (insert_name_comm d c (sort_names l))
sort_names-Permᴰ ns ms (Permᴰ.trans {l₂ = mid} h k) =
    sort_names-Permᴰ ns mid h ∙ sort_names-Permᴰ mid ms k

var_flags_same :
    (vars others : Variables) (names : List Text)
    → ((name : Text) → value vars name ≡ value others name)
    → var_flags vars names ≡ var_flags others names
unfolding var_flags
var_flags_same vars others [] h = refl
var_flags_same vars others (name ∷ names) h = rw (h name, var_flags_same vars others names h) refl

-- The command line of a build is the same in whatever order its variables are ranged over: two
-- lists of entries with the same names that give each name the same value make one command.
pub command-Permᴰ :
    (packer : Text) (r : Request) (others : Variables) (dir : Dir) (template : Text)
    → Permᴰ (map name_of r.vars) (map name_of others)
    → ((name : Text) → value r.vars name ≡ value others name)
    → command packer r dir template ≡ command packer (record r { vars = others }) dir template
unfolding command sorted_names
command-Permᴰ packer r others dir template h same =
    rw
      (
        sort_names-Permᴰ (map name_of r.vars) (map name_of others) h,
        var_flags_same r.vars others (sort_names (map name_of others)) same,
      )
      refl
