-- ===== src/Worker/Files/Resolved.antt =====
-- internal/runtime/files.go: the path that ResolveUnderRoot answers.
use Prim.Native.String.{[], ◌∷◌, ◌++◌}
use mathlib.Core.List
use mathlib.Core.List.{reverse, reverse_aux, reverse-reverse}
use text.Mathlib.TextLemmas.{tail-eq_of_cons-eq, nil-append, cons-append, append_assoc, cons≢nil}
use sandbox_fleet.Base.{
  String, Bool, true, false, ◌≡◌, ◌≢◌, refl, ◌⊎◌, ◌++◌ as append, ap, sym, ◌∙◌, subst, inl, inr,
  List, [], ◌∷◌, if◌then◌else◌, All, arith, nat_key, string_key, Bool-cases, ◌==◌, ◌||◌,
}
use sandbox_fleet.Base.Result.{Result, ok, err}
use sandbox_fleet.Store.Paths.{is_slash, trim_space, trim_slash, has_prefix}
use sandbox_fleet.Worker.Files.Paths.{
  PathError, escapes_root, split_slash, join_rest, join_slash, go_up, clean_part, clean_from,
  is_rooted, or_dot, clean_parts, clean, path_join, goes_up, resolve_normalized, resolve_under_root,
}
use sandbox_fleet.Worker.Files.Splitting.{
  SlashFree, split_slash-SlashFree, split_slash-append, split_slash-join_rest,
}

-- A part of a cleaned path: a name or "..".
pub record IsPart (s : String) : Type 0 where
  pub slash_free : SlashFree s
  pub filled : s ≢ ""
  pub not_here : s ≢ "."

-- The name of a file or a directory.
pub record IsName (s : String) : Type 0 where
  pub part : IsPart s
  pub not_up : s ≢ ".."

pub same-eq : {s t : String} → (s == t) ≡ true → s ≡ t
same-eq {s} {t} e = elim (string_key.same s t) [ yes p ↦ p | no n ↦ ground arith ]

pub same-ne : {s t : String} → (s == t) ≡ false → s ≢ t
same-ne e p = ground arith

pub eq-same : {s t : String} → s ≡ t → (s == t) ≡ true
eq-same e = ground arith

pub ne-same : {s t : String} → s ≢ t → (s == t) ≡ false
ne-same n = ground arith

up-IsPart : IsPart ".."
unfolding is_slash nat_key
up-IsPart = record {
  slash_free = (refl, (refl, tt));
  filled = λ p. cons≢nil p;
  not_here = λ p. cons≢nil (tail-eq_of_cons-eq p);
}

go_up-IsPart :
    (rooted : Bool) (stack : List String) → All IsPart stack → All IsPart (go_up rooted stack)
unfolding go_up
go_up-IsPart true [] all = tt
go_up-IsPart false [] all = (up-IsPart, tt)
go_up-IsPart rooted (s ∷ stack) all = elim (Bool-cases (s == "..")) [
  | inl e ↦ rw e (up-IsPart, all)
  | inr e ↦ rw e all.1
]

clean_part-IsPart :
    (rooted : Bool) (stack : List String) (s : String)
    → SlashFree s
    → All IsPart stack
    → All IsPart (clean_part rooted stack s)
unfolding clean_part
clean_part-IsPart rooted stack s free all = elim (Bool-cases (s == "")) [
  | inl e ↦ rw e all
  | inr e ↦ rw e (elim (Bool-cases (s == ".")) [
    | inl f ↦ rw f all
    | inr f ↦ rw f (elim (Bool-cases (s == "..")) [
      | inl g ↦ rw g (go_up-IsPart rooted stack all)
      | inr g ↦ rw g (record { slash_free = free; filled = same-ne e; not_here = same-ne f }, all)
    ])
  ])
]

clean_from-IsPart :
    (rooted : Bool) (stack parts : List String)
    → All IsPart stack
    → All SlashFree parts
    → All IsPart (clean_from rooted stack parts)
unfolding clean_from
clean_from-IsPart rooted stack [] all free = all
clean_from-IsPart rooted stack (s ∷ parts) all free =
    clean_from-IsPart rooted (clean_part rooted stack s) parts
      (clean_part-IsPart rooted stack s free.0 all) free.1

-- The parts of a file or a directory under a root: the names of the root, then those below it.
abbrev pub path_of : String → List String → String
path_of name names = "/" ++ (name ++ join_rest names)

pub clean_from-names :
    (rooted : Bool) (stack names : List String)
    → All IsName names
    → clean_from rooted stack names ≡ reverse_aux names stack
unfolding clean_from clean_part
clean_from-names rooted stack [] all = refl
clean_from-names rooted stack (s ∷ names) (h, all) =
    rw (ne-same h.part.filled, ne-same h.part.not_here, ne-same h.not_up)
      (clean_from-names rooted (s ∷ stack) names all)

pub names-SlashFree : (names : List String) → All IsName names → All SlashFree names
names-SlashFree [] all = tt
names-SlashFree (s ∷ names) (h, all) = (h.part.slash_free, names-SlashFree names all)

parts-SlashFree : (parts : List String) → All IsPart parts → All SlashFree parts
parts-SlashFree [] all = tt
parts-SlashFree (s ∷ parts) (h, all) = (h.slash_free, parts-SlashFree parts all)

pub split_slash-root : (t : String) → split_slash ("/" ++ t) ≡ "" ∷ split_slash t
split_slash-root t = ap split_slash (sym (nil-append ("/" ++ t))) ∙ split_slash-append "" t tt

root-is_rooted : (t : String) → is_rooted ("/" ++ t) ≡ true
unfolding is_slash nat_key
root-is_rooted t = rw cons-append refl

clean_part-nothing : clean_part true [] "" ≡ []
unfolding clean_part string_key
clean_part-nothing = refl

-- A path of names is clean.
clean-path_of :
    (name : String) (names : List String)
    → All IsName (name ∷ names)
    → clean (path_of name names) ≡ path_of name names
unfolding clean clean_parts clean_from join_slash
clean-path_of name names all =
    let free = names-SlashFree (name ∷ names) all in
    rw
      (
        root-is_rooted (name ++ join_rest names),
        split_slash-root (name ++ join_rest names),
        split_slash-join_rest name names free.0 free.1,
        clean_part-nothing,
        clean_from-names true [] (name ∷ names) all,
        reverse-reverse (name ∷ names),
      )
      refl

join_rest-append :
    (names parts : List String)
    → join_rest (append names parts) ≡ join_rest names ++ join_rest parts
unfolding join_rest
join_rest-append [] parts = sym (nil-append (join_rest parts))
join_rest-append (s ∷ names) parts = simp (join_rest-append names parts, append_assoc)

pub All-append :
    (P : String → Type 0) (xs ys : List String) → All P xs → All P ys → All P (append xs ys)
All-append P [] ys h k = k
All-append P (x ∷ xs) ys (p, h) k = (p, All-append P xs ys h k)

All-reverse_aux :
    (P : String → Type 0) (xs ys : List String) → All P xs → All P ys → All P (reverse_aux xs ys)
All-reverse_aux P [] ys h k = k
All-reverse_aux P (x ∷ xs) ys (p, h) k = All-reverse_aux P xs (x ∷ ys) h (p, k)

goes_up-IsName : (parts : List String) → All IsPart parts → goes_up parts ≡ false → All IsName parts
unfolding goes_up
goes_up-IsName [] all e = tt
goes_up-IsName (s ∷ parts) (p, all) e = elim (Bool-cases (s == "..")) [
  | inl f ↦ ground arith
  | inr f ↦ (record { part = p; not_up = same-ne f }, goes_up-IsName parts all (ground arith))
]

-- What trimming the slash of a cleaned path leaves.
abbrev IsNormal : String → Type 0
IsNormal t = (parts : List String) × All IsPart parts × ((t ≡ ".") ⊎ (t ≡ join_slash parts))

or_dot-IsNormal :
    (parts : List String) → All IsPart parts → IsNormal (trim_slash (or_dot (join_slash parts)))
unfolding join_slash trim_slash is_slash nat_key
or_dot-IsNormal [] all = ([], tt, inl refl)
or_dot-IsNormal ([] ∷ qs) all = absurd (all.0.filled refl)
or_dot-IsNormal ((c ∷ q) ∷ qs) all =
    ((c ∷ q) ∷ qs, all, inr (rw (cons-append c q (join_rest qs)) (rw (all.0.slash_free.0) refl)))

trim_slash-root : (t : String) → trim_slash ("/" ++ t) ≡ t
unfolding trim_slash is_slash nat_key
trim_slash-root t = rw cons-append (nil-append t)

text-IsNormal :
    (rooted : Bool) (parts : List String)
    → All IsPart parts
    → IsNormal (trim_slash (if rooted then "/" ++ join_slash parts else or_dot (join_slash parts)))
text-IsNormal true parts all = (parts, all, inr (trim_slash-root (join_slash parts)))
text-IsNormal false parts all = or_dot-IsNormal parts all

clean-IsNormal : (path : String) → IsNormal (trim_slash (clean path))
unfolding clean clean_parts
clean-IsNormal path = text-IsNormal (is_rooted path) _ (
    All-reverse_aux IsPart (clean_from (is_rooted path) [] (split_slash path)) []
      (clean_from-IsPart (is_rooted path) [] (split_slash path) tt (split_slash-SlashFree path)) tt)

path_join-root : (s t : String) → path_join ("/" ++ s) t ≡ clean (("/" ++ s) ++ ("/" ++ t))
unfolding path_join
path_join-root s t =
    subst (λ (r : String). path_join r t ≡ clean (r ++ ("/" ++ t))) (sym (cons-append _ [] s)) refl

-- The root as a directory: the names on the way to it.
module _ (root : String) (dirs : List String) (are_names : All IsName (root ∷ dirs)) where
  pub path_join-names :
      (name : String) (names : List String)
      → All IsName (name ∷ names)
      → path_join (path_of root dirs) (name ++ join_rest names)
        ≡ path_of root (append dirs (name ∷ names))
  path_join-names name names all =
      path_join-root (root ++ join_rest dirs) (name ++ join_rest names)
      ∙ ap clean joined
      ∙ clean-path_of root (append dirs (name ∷ names))
          (are_names.0, All-append IsName dirs (name ∷ names) are_names.1 all)
    where
      joined :
          path_of root dirs ++ ("/" ++ (name ++ join_rest names))
          ≡ path_of root (append dirs (name ∷ names))
      joined = unfold join_rest in simp (join_rest-append dirs (name ∷ names), append_assoc)

  -- The path is the root or lies below it, with proper names on the way.
  abbrev pub StaysUnder : Result PathError String → Type 0
  StaysUnder (ok path) =
      (names : List String) × All IsName names × (path ≡ path_of root (append dirs names))
  StaysUnder (err e) = Unit

  -- ResolveUnderRoot after its tests.
  answer-StaysUnder :
      (escapes up here : Bool) (rest : String)
      → (up ≡ false → here ≡ false → StaysUnder (ok rest))
      → StaysUnder (
          if escapes
          then err escapes_root
          else if up
          then err escapes_root
          else if here
          then ok (path_of root dirs)
          else ok rest)
  answer-StaysUnder true up here rest below = tt
  answer-StaysUnder false true here rest below = tt
  answer-StaysUnder false false true rest below = ([], tt, rw (List.append-nil dirs) refl)
  answer-StaysUnder false false false rest below = below refl refl

  checked-StaysUnder :
      (normalized : String)
      → (goes_up (split_slash normalized) ≡ false
          → (normalized == "." || normalized == "") ≡ false
          → StaysUnder (ok (path_join (path_of root dirs) normalized)))
      → StaysUnder (resolve_normalized (path_of root dirs) normalized)
  unfolding resolve_normalized
  checked-StaysUnder normalized below =
      answer-StaysUnder (normalized == ".." || has_prefix normalized "../")
        (goes_up (split_slash normalized)) (normalized == "." || normalized == "")
        (path_join (path_of root dirs) normalized) below

  resolve_normalized-StaysUnder :
      (normalized : String)
      → IsNormal normalized
      → StaysUnder (resolve_normalized (path_of root dirs) normalized)
  unfolding join_slash
  resolve_normalized-StaysUnder normalized (parts, all, inl e) =
      checked-StaysUnder normalized (λ up here. ground arith)
  resolve_normalized-StaysUnder normalized ([], all, inr e) =
      checked-StaysUnder normalized (λ up here. ground arith)
  resolve_normalized-StaysUnder normalized (part ∷ parts, all, inr e) =
      checked-StaysUnder normalized (λ up here.
        let free = parts-SlashFree (part ∷ parts) all in
        let split = ap split_slash e ∙ split_slash-join_rest part parts free.0 free.1 in
        let names = goes_up-IsName (part ∷ parts) all (ap goes_up (sym split) ∙ up) in
        (
          part ∷ parts,
          names,
          ap (path_join (path_of root dirs)) e ∙ path_join-names part parts names,
        ))

  -- A path that ResolveUnderRoot answers under a root of proper names is that root or lies below it, with
  -- proper names on the way: none is empty, ".", ".." or has a slash.
  pub resolve_under_root-StaysUnder :
      (rel : String) → StaysUnder (resolve_under_root (path_of root dirs) rel)
  unfolding resolve_under_root
  resolve_under_root-StaysUnder rel = elim (Bool-cases (trim_space rel == "")) [
    | inl e ↦ rw e tt
    | inr e ↦ rw e (
        resolve_normalized-StaysUnder (trim_slash (clean (trim_space rel)))
          (clean-IsNormal (trim_space rel)))
  ]
