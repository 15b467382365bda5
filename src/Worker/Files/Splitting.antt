-- ===== src/Worker/Files/Splitting.antt =====
-- internal/runtime/files.go: what splitting at slashes and joining with slashes do to a list of parts.
use Prim.Native.Char.{Char}
use Prim.Native.String.{[], ◌∷◌, ◌++◌}
use text.Mathlib.TextLemmas.{nil-append, cons-append, append-nil}
use sandbox_fleet.Base.{
  String, Bool, true, false, ◌≡◌, refl, ap, ◌∙◌, List, [], ◌∷◌, Bool-cases, inl, inr, All, nat_key,
}
use sandbox_fleet.Store.Paths.{is_slash}
use sandbox_fleet.Worker.Files.Paths.{push, split_at, split_slash, join_rest}

-- No character passes the test.
abbrev pub Free : (Char → Bool) → String → Type 0
Free at [] = Unit
Free at (c ∷ s) = (at c ≡ false) × Free at s

-- No character is a slash.
abbrev pub SlashFree : String → Type 0
SlashFree s = Free is_slash s

module _ (at : Char → Bool) where
  push-Free :
      (c : Char) (parts : List String)
      → at c ≡ false
      → All (Free at) parts
      → All (Free at) (push c parts)
  push-Free c [] e h = ((e, tt), tt)
  push-Free c (s ∷ parts) e h = ((e, h.0), h.1)

  split_at-Free : (s : String) → All (Free at) (split_at at s)
  unfolding split_at
  split_at-Free [] = (tt, tt)
  split_at-Free (c ∷ s) = elim (Bool-cases (at c)) [
    | inl e ↦ rw e (tt, split_at-Free s)
    | inr e ↦ rw e (push-Free c (split_at at s) e (split_at-Free s))
  ]

  -- A part is split off at the separator after it.
  pub split_at-append :
      (d : Char) (s t : String)
      → at d ≡ true
      → Free at s
      → split_at at (s ++ (d ∷ t)) ≡ s ∷ split_at at t
  unfolding split_at
  split_at-append d [] t p h = rw (nil-append (d ∷ t)) (rw p refl)
  split_at-append d (c ∷ s) t p (e, h) =
      rw (cons-append c s (d ∷ t)) (rw e (rw (split_at-append d s t p h) refl))

  pub split_at-whole : (s : String) → Free at s → split_at at s ≡ s ∷ []
  unfolding split_at
  split_at-whole [] h = refl
  split_at-whole (c ∷ s) (e, h) = rw e (rw (split_at-whole s h) refl)

pub split_slash-SlashFree : (s : String) → All SlashFree (split_slash s)
unfolding split_slash
split_slash-SlashFree s = split_at-Free is_slash s

pub split_slash_free : (s : String) → SlashFree s → split_slash s ≡ s ∷ []
unfolding split_slash
split_slash_free s h = split_at-whole is_slash s h

abbrev slash : Char
slash = "/"

slash-is_slash : is_slash slash ≡ true
unfolding is_slash nat_key
slash-is_slash = refl

pub split_slash-append :
    (s t : String) → SlashFree s → split_slash (s ++ ("/" ++ t)) ≡ s ∷ split_slash t
unfolding split_slash
split_slash-append s t h =
    ap (λ (r : String). split_at is_slash (s ++ r))
      (cons-append slash "" t ∙ ap (λ (r : String). slash ∷ r) (nil-append t))
    ∙ split_at-append is_slash slash s t slash-is_slash h

pub split_slash-join_rest :
    (s : String) (parts : List String)
    → SlashFree s
    → All SlashFree parts
    → split_slash (s ++ join_rest parts) ≡ s ∷ parts
unfolding join_rest
split_slash-join_rest s [] h all = rw (append-nil s) (split_slash_free s h)
split_slash-join_rest s (t ∷ parts) h all =
    split_slash-append s (t ++ join_rest parts) h
    ∙ ap (λ (rest : List String). s ∷ rest) (split_slash-join_rest t parts all.0 all.1)
