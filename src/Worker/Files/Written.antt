-- ===== src/Worker/Files/Written.antt =====
-- internal/runtime/files.go: which file ResolveUnderRoot finds under a name that ValidateWriteName
-- allows.
use Prim.Native.Char.{Char}
use Prim.Native.String.{[], ◌∷◌, ◌++◌}
use text.Mathlib.TextLemmas.{append-nil}
use sandbox_fleet.Base.{
  String, Bool, true, false, ◌≡◌, ◌≢◌, refl, ◌↔◌, ◌++◌ as append, ap, sym, ◌∙◌, inl, inr, List, [],
  ◌∷◌, if◌then◌else◌, All, arith, nat_key, string_key, Bool-cases, ◌==◌, ◌||◌, ◌&&◌, ◌!=◌,
}
use sandbox_fleet.Base.Result.{Result, ok, err}
use sandbox_fleet.Store.Paths.{
  is_slash, is_space, trim_left, trim_right, trim_space, trim_slash, is_empty, has_prefix, contains,
}
use sandbox_fleet.Worker.Files.Paths.{
  PathError, empty_path, escapes_root, not_plain, path_base, split_slash, join_rest, join_slash,
  is_rooted, clean_parts, clean, path_join, goes_up, resolve_normalized, resolve_under_root,
  validate_write_name,
}
use sandbox_fleet.Worker.Files.Splitting.{SlashFree, split_slash_free, split_slash-join_rest}
use sandbox_fleet.Worker.Files.Resolved.{
  IsName, same-eq, same-ne, ne-same, clean_from-names, path_of, names-SlashFree, split_slash-root,
  path_join-names, All-append,
}

pub contains-SlashFree : (s : String) → contains s "/" ≡ false → SlashFree s
unfolding contains has_prefix is_slash nat_key
contains-SlashFree [] e = tt
contains-SlashFree (c ∷ s) e = ground (arith, contains-SlashFree s)

trim_left-SlashFree : (s : String) → SlashFree s → SlashFree (trim_left s)
unfolding trim_left
trim_left-SlashFree [] h = tt
trim_left-SlashFree (c ∷ s) h = elim (Bool-cases (is_space c)) [
  | inl e ↦ rw e (trim_left-SlashFree s h.1)
  | inr e ↦ rw e h
]

trim_right-SlashFree : (s : String) → SlashFree s → SlashFree (trim_right s)
unfolding trim_right
trim_right-SlashFree [] h = tt
trim_right-SlashFree (c ∷ s) h = elim (Bool-cases (is_space c && is_empty (trim_right s))) [
  | inl e ↦ rw e tt
  | inr e ↦ rw e (h.0, trim_right-SlashFree s h.1)
]

trim_space-SlashFree : (s : String) → SlashFree s → SlashFree (trim_space s)
unfolding trim_space
trim_space-SlashFree s h = trim_right-SlashFree (trim_left s) (trim_left-SlashFree s h)

has_prefix-up : (s : String) → SlashFree s → has_prefix s "../" ≡ false
unfolding has_prefix is_slash nat_key
has_prefix-up [] h = refl
has_prefix-up (c ∷ []) h = ground arith
has_prefix-up (c ∷ d ∷ []) h = ground arith
has_prefix-up (c ∷ d ∷ e ∷ s) h = ground arith

clean_lem : (path : String) → clean path ≡ clean_parts (is_rooted path) (split_slash path)
unfolding clean
clean_lem path = refl

clean_parts-name :
    (c : Char) (s : String) → IsName (c ∷ s) → clean_parts false ((c ∷ s) ∷ []) ≡ c ∷ s
unfolding clean_parts join_slash join_rest
clean_parts-name c s h =
    rw (clean_from-names false [] ((c ∷ s) ∷ []) (h, tt)) (rw (append-nil (c ∷ s)) refl)

trim_slash_free : (c : Char) (s : String) → is_slash c ≡ false → trim_slash (c ∷ s) ≡ c ∷ s
unfolding trim_slash
trim_slash_free c s e = rw e refl

clean-name : (s : String) → IsName s → trim_slash (clean s) ≡ s
clean-name [] h = absurd (h.part.filled refl)
clean-name (c ∷ s) h =
    ap trim_slash (
      clean_lem (c ∷ s)
      ∙ ap (λ r. clean_parts r (split_slash (c ∷ s))) h.part.slash_free.0
      ∙ ap (clean_parts false) (split_slash_free (c ∷ s) h.part.slash_free)
      ∙ clean_parts-name c s h)
    ∙ trim_slash_free c s h.part.slash_free.0

abbrev passed : Bool → Bool → Bool → Result PathError (Unit {0})
passed blank odd split =
    if blank
    then err empty_path
    else if odd
    then err not_plain
    else if split
    then err not_plain
    else ok tt

-- What the three tests of ValidateWriteName have to answer.
passes_tests :
    (blank odd split : Bool)
    → passed blank odd split ≡ ok tt
    → (blank ≡ false) × (odd ≡ false) × (split ≡ false)
passes_tests true odd split h = cc
passes_tests false true split h = cc
passes_tests false false true h = cc
passes_tests false false false h = (refl, refl, refl)

is_plain :
    (base name : String)
    → (base == "." || base == ".." || base == "/" || base != name) ≡ false
    → (name ≢ ".") × (name ≢ "..")
is_plain base name e = ground arith

is_one_part : (name : String) → (contains name "/" || contains name "\\") ≡ false → SlashFree name
is_one_part name e = contains-SlashFree name (ground arith)

-- A name that may be written is a proper name, and not blank.
validate_write_name-IsName :
    (name : String) → validate_write_name name ≡ ok tt → IsName name × (trim_space name ≢ "")
unfolding validate_write_name
validate_write_name-IsName name h =
    let (blank, odd, split) =
      passes_tests (trim_space name == "")
        (path_base name == "."
          || path_base name == ".."
          || path_base name == "/"
          || path_base name != name)
        (contains name "/" || contains name "\\") h in
    let plain = is_plain (path_base name) name odd in
    let filled : name ≢ "" = λ p. same-ne blank (ap trim_space p) in
    (
      record {
        part = record { slash_free = is_one_part name split; filled = filled; not_here = plain.0 };
        not_up = plain.1;
      },
      same-ne blank,
    )

-- The directory itself, and the one above it.
resolve_normalized-here :
    (root : String) → resolve_normalized root (trim_slash (clean ".")) ≡ ok root
unfolding resolve_normalized trim_slash clean string_key nat_key
resolve_normalized-here root = refl

resolve_normalized-up :
    (root : String) → resolve_normalized root (trim_slash (clean "..")) ≡ err escapes_root
unfolding resolve_normalized trim_slash clean string_key nat_key
resolve_normalized-up root = refl

ok-inj : {s t : String} → ◌≡◌ {A = Result PathError String} (ok s) (ok t) → s ≡ t
ok-inj e = cc

not-one_more : (s : String) (parts : List String) → parts ≢ append parts (s ∷ [])
not-one_more s [] e = cc
not-one_more s (t ∷ parts) e = not-one_more s parts (cc)

last-inj :
    (s t : String) (parts : List String) → append parts (s ∷ []) ≡ append parts (t ∷ []) → s ≡ t
last-inj s t [] e = cc
last-inj s t (r ∷ parts) e = last-inj s t parts (cc)

resolve_filled :
    (root name : String)
    → trim_space name ≢ ""
    → resolve_under_root root name ≡ resolve_normalized root (trim_slash (clean (trim_space name)))
unfolding resolve_under_root
resolve_filled root name filled = rw (ne-same filled) refl

-- The root as a directory, and a name that may be written in it.
module _ (root : String) (dirs : List String) (are_names : All IsName (root ∷ dirs)) where
  abbrev pub file_path : String → String
  file_path name = path_of root (append dirs (name ∷ []))

  pub path_join-name : (s : String) → IsName s → path_join (path_of root dirs) s ≡ file_path s
  unfolding join_rest
  path_join-name s h =
      ap (path_join (path_of root dirs)) (sym (append-nil s))
      ∙ path_join-names root dirs are_names s [] (h, tt)

  resolve_normalized-name :
      (s : String) → IsName s → resolve_normalized (path_of root dirs) s ≡ ok (file_path s)
  unfolding resolve_normalized goes_up
  resolve_normalized-name s h =
      rw
        (
          ne-same h.not_up,
          has_prefix-up s h.part.slash_free,
          split_slash_free s h.part.slash_free,
          ne-same h.not_up,
          ne-same h.part.not_here,
          ne-same h.part.filled,
        )
        (ap ok (path_join-name s h))

  split_slash-path_of :
      (parts : List String)
      → All IsName parts
      → split_slash (path_of root parts) ≡ "" ∷ root ∷ parts
  split_slash-path_of parts h =
      let free = names-SlashFree (root ∷ parts) (are_names.0, h) in
      split_slash-root (root ++ join_rest parts)
      ∙ ap (λ (more : List String). "" ∷ more) (split_slash-join_rest root parts free.0 free.1)

  -- Two lists of names with one path are one list.
  path_of-inj :
      (xs ys : List String)
      → All IsName xs
      → All IsName ys
      → path_of root xs ≡ path_of root ys
      → xs ≡ ys
  path_of-inj xs ys hx hy e =
      cc (ap split_slash e, split_slash-path_of xs hx, split_slash-path_of ys hy)

  with_name : (s : String) → IsName s → All IsName (append dirs (s ∷ []))
  with_name s h = All-append IsName dirs (s ∷ []) are_names.1 (h, tt)

  -- Only a name itself leads to its file.
  resolve_normalized-inj :
      (s name : String)
      → SlashFree s
      → s ≢ ""
      → IsName name
      → resolve_normalized (path_of root dirs) (trim_slash (clean s)) ≡ ok (file_path name)
      → s ≡ name
  resolve_normalized-inj s name free filled h e = elim (Bool-cases (s == ".")) [
    | inl p ↦
        let here =
          ap (λ t. resolve_normalized (path_of root dirs) (trim_slash (clean t))) (same-eq p) in
        absurd (
          not-one_more name dirs (
            path_of-inj dirs (append dirs (name ∷ [])) are_names.1 (with_name name h)
              (ok-inj (sym (here ∙ resolve_normalized-here (path_of root dirs)) ∙ e))))
    | inr p ↦ elim (Bool-cases (s == "..")) [
      | inl q ↦
          let up =
            ap (λ t. resolve_normalized (path_of root dirs) (trim_slash (clean t))) (same-eq q) in
          cc (up, resolve_normalized-up (path_of root dirs), e)
      | inr q ↦
          let k : IsName s = record {
            part = record { slash_free = free; filled = filled; not_here = same-ne p };
            not_up = same-ne q;
          } in
          last-inj s name dirs (
            path_of-inj (append dirs (s ∷ [])) (append dirs (name ∷ [])) (with_name s k)
              (with_name name h)
              (ok-inj (
                sym (
                  ap (resolve_normalized (path_of root dirs)) (clean-name s k)
                  ∙ resolve_normalized-name s k)
                ∙ e)))
    ]
  ]

  -- For a name that WriteSandboxFile allows, ResolveUnderRoot finds the file that was written under the name
  -- exactly when the name neither begins nor ends with white space.
  pub resolve_under_root-written :
      (name : String)
      → validate_write_name name ≡ ok tt
      → (resolve_under_root (path_of root dirs) name ≡ ok (path_join (path_of root dirs) name))
        ↔ (trim_space name ≡ name)
  resolve_under_root-written name valid =
      let (h, filled) = validate_write_name-IsName name valid in
      (
        λ e.
            resolve_normalized-inj (trim_space name) name
              (trim_space-SlashFree name h.part.slash_free) filled h
              (sym (resolve_filled (path_of root dirs) name filled)
                ∙ e
                ∙ ap ok (path_join-name name h)),
        λ e.
            resolve_filled (path_of root dirs) name filled
            ∙ ap (λ t. resolve_normalized (path_of root dirs) (trim_slash (clean t))) e
            ∙ ap (resolve_normalized (path_of root dirs)) (clean-name name h)
            ∙ resolve_normalized-name name h
            ∙ ap ok (sym (path_join-name name h)),
      )
