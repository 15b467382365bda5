-- ===== src/Worker/Files/Trailer.antt =====
-- internal/runtime/files_shell.go: the trailer at the end of the output of ReadFileVia's command is found
-- and read.
use Prim.Native.Char.{Char, code}
use Prim.Native.String.{[], ◌∷◌, ◌++◌}
use text.Mathlib.TextLemmas.{nil-append, cons-append, append_assoc}
use sandbox_fleet.Base.{
  ℕ, suc, ◌+◌, ◌*◌, ◌-◌, ◌≤◌, String, true, false, ◌≡◌, refl, ap, sym, ◌∙◌, subst, none, some, ◌==◌,
  nat_key, arith,
}
use sandbox_fleet.Base.Int.{pos}
use sandbox_fleet.Base.Text.{decimal}
use sandbox_fleet.Store.Paths.{is_space, trim_left, trim_right, trim_space, is_empty, has_prefix}
use sandbox_fleet.Http.Wire.{parse_digits}
use sandbox_fleet.Http.Numbers.{IsNumber, decimal_within-IsNumber, parse_digits-decimal_within}
use sandbox_fleet.Worker.Files.Shell.{
  trailer, split_last, drop_text, is_digit, scan_digits, scan_unsigned, scan_signed, scan_int,
  scan_trailer, max_int,
}

-- The trailer that the command prints for a number of bytes.
abbrev pub trailer_of : ℕ → String
trailer_of n = trailer ++ (decimal n ++ "\n")

pub split_last-append :
    (s t : String) → split_last t ≡ some ("", t) → split_last (s ++ t) ≡ some (s, t)
unfolding split_last
split_last-append [] t h = rw (nil-append t) h
split_last-append (c ∷ s) t h = rw (cons-append c s t) (rw (split_last-append s t h) refl)

-- No character has the code.
abbrev pub Lacks : ℕ → String → Type 0
Lacks n [] = Unit
Lacks n (c ∷ s) = ((code c == n) ≡ false) × Lacks n s

-- A trailer starts with R and has an underscore.
has_prefix-Lacks : (s : String) → Lacks 95 s → has_prefix s trailer ≡ false
unfolding has_prefix nat_key
has_prefix-Lacks [] h = refl
has_prefix-Lacks (c ∷ []) h = ground arith
has_prefix-Lacks (c ∷ d ∷ []) h = ground arith
has_prefix-Lacks (c ∷ d ∷ e ∷ []) h = ground arith
has_prefix-Lacks (c ∷ d ∷ e ∷ f ∷ []) h = ground arith
has_prefix-Lacks (c ∷ d ∷ e ∷ f ∷ g ∷ s) h = ground arith

pub split_last-Lacks : (s : String) → Lacks 95 s → split_last s ≡ none
unfolding split_last
split_last-Lacks [] h = refl
split_last-Lacks (c ∷ s) h = rw (split_last-Lacks s h.1) (rw (has_prefix-Lacks (c ∷ s) h) refl)

-- No trailer starts before the second text.
split_last-skips : (s t : String) → Lacks 82 s → split_last t ≡ none → split_last (s ++ t) ≡ none
unfolding split_last has_prefix nat_key
split_last-skips [] t h e = rw (nil-append t) e
split_last-skips (c ∷ s) t h e =
    let rest = split_last-skips s t h.1 e in rw (cons-append c s t) (ground arith)

has_prefix-append : (s t : String) → has_prefix (s ++ t) s ≡ true
unfolding has_prefix
has_prefix-append [] t = refl
has_prefix-append (c ∷ s) t = rw (cons-append c s t) (ground (arith, has_prefix-append s t))

-- Every character is a digit.
abbrev Digits : String → Type 0
Digits [] = Unit
Digits (c ∷ s) = (is_digit c ≡ true) × Digits s

parse_digits-Digits :
    (m n : ℕ) (s : String) → parse_digits m s ≡ some n → Digits s × (scan_digits m s ≡ n)
unfolding parse_digits scan_digits
parse_digits-Digits m n [] e = (tt, cc)
parse_digits-Digits m n (c ∷ s) e = ground (arith, parse_digits-Digits (m * 10 + (code c - 48)) n s)

Digits-Lacks : (s : String) → Digits s → Lacks 82 s
Digits-Lacks [] h = tt
Digits-Lacks (c ∷ s) h = (ground arith, Digits-Lacks s h.1)

decimal-Digits : (n : ℕ) → Digits (decimal n) × (scan_digits 0 (decimal n) ≡ n)
unfolding decimal
decimal-Digits n =
    parse_digits-Digits 0 n (decimal n) (parse_digits-decimal_within (suc n) n (omega arith))

decimal-IsNumber : (n : ℕ) → IsNumber (decimal n)
unfolding decimal
decimal-IsNumber n = decimal_within-IsNumber (suc n) n (omega arith)

end_of_trailer : (n : ℕ) → split_last (decimal n ++ "\n") ≡ none
unfolding split_last has_prefix nat_key
end_of_trailer n =
    split_last-skips (decimal n) "\n" (Digits-Lacks (decimal n) (decimal-Digits n).0) refl

abbrev letter : Char
letter = "R"

split_last-none :
    (c : Char) (s : String)
    → has_prefix (c ∷ s) trailer ≡ false
    → split_last s ≡ none
    → split_last (c ∷ s) ≡ none
unfolding split_last
split_last-none c s p e = rw (e, p) refl

split_last-here :
    (c : Char) (s : String)
    → has_prefix (c ∷ s) trailer ≡ true
    → split_last s ≡ none
    → split_last (c ∷ s) ≡ some ("", c ∷ s)
unfolding split_last
split_last-here c s p e = rw (e, p) refl

-- A trailer does not go on with another letter than E after its R.
no_trailer :
    (c : Char) (s : String) → (code c == 69) ≡ false → has_prefix (letter ∷ c ∷ s) trailer ≡ false
unfolding has_prefix nat_key
no_trailer c s e = ground arith

-- The R in the middle of the trailer starts no other.
split_last-middle :
    (c : Char) (s t : String)
    → (code c == 69) ≡ false
    → split_last ((c ∷ s) ++ t) ≡ none
    → split_last (letter ∷ ((c ∷ s) ++ t)) ≡ none
split_last-middle c s t e rest =
    split_last-none letter ((c ∷ s) ++ t)
      (subst (λ (u : String). has_prefix (letter ∷ u) trailer ≡ false) (sym (cons-append c s t))
        (no_trailer c (s ++ t) e))
      rest

inside_trailer : (n : ℕ) → split_last ("EAD_VERIFY bytes=" ++ (decimal n ++ "\n")) ≡ none
unfolding nat_key
inside_trailer n =
    let t = decimal n ++ "\n" in
    let last = split_last-skips "IFY bytes=" t (ground arith) (end_of_trailer n) in
    let rest = split_last-middle "I" "FY bytes=" t refl last in
    let whole = split_last-skips "EAD_VE" (letter ∷ ("IFY bytes=" ++ t)) (ground arith) rest in
    subst (λ (u : String). split_last u ≡ none)
      (ap (λ (u : String). "EAD_VE" ++ u) (sym (cons-append letter "IFY bytes=" t))
        ∙ sym (append_assoc "EAD_VE" "RIFY bytes=" t))
      whole

pub split_last-trailer : (n : ℕ) → split_last (trailer_of n) ≡ some ("", trailer_of n)
split_last-trailer n =
    let t = decimal n ++ "\n" in
    let parts = cons-append letter "EAD_VERIFY bytes=" t in
    subst (λ (u : String). split_last u ≡ some ("", u)) (sym parts)
      (split_last-here letter ("EAD_VERIFY bytes=" ++ t)
        (subst (λ (u : String). has_prefix u trailer ≡ true) parts (has_prefix-append trailer t))
        (inside_trailer n))

digit_is_no_space : (c : Char) → is_digit c ≡ true → is_space c ≡ false
unfolding is_space nat_key
digit_is_no_space c h = ground arith

pub trim_right-cons :
    (c : Char) (s t : String) → is_space c ≡ false → trim_right s ≡ t → trim_right (c ∷ s) ≡ c ∷ t
unfolding trim_right
trim_right-cons c s t p e = rw (p, e) refl

trim_right-break : trim_right "\n" ≡ ""
unfolding trim_right is_space nat_key
trim_right-break = refl

trim_right-Digits : (s : String) → Digits s → trim_right (s ++ "\n") ≡ s
trim_right-Digits [] h = ap trim_right (nil-append "\n") ∙ trim_right-break
trim_right-Digits (c ∷ s) h =
    ap trim_right (cons-append c s "\n")
    ∙ trim_right-cons c (s ++ "\n") s (digit_is_no_space c h.0) (trim_right-Digits s h.1)

pub is_empty-append : (s t : String) → is_empty t ≡ false → is_empty (s ++ t) ≡ false
is_empty-append [] t h = rw (nil-append t) h
is_empty-append (c ∷ s) t h = rw (cons-append c s t) refl

pub trim_right-append :
    (s t : String) → is_empty (trim_right t) ≡ false → trim_right (s ++ t) ≡ s ++ trim_right t
unfolding trim_right
trim_right-append [] t h = rw (nil-append t, nil-append (trim_right t)) refl
trim_right-append (c ∷ s) t h =
    let more = is_empty-append s (trim_right t) h in
    rw (cons-append c s t, cons-append c s (trim_right t))
      (rw (trim_right-append s t h) (ground arith))

number_is_filled : (s : String) → IsNumber s → is_empty s ≡ false
number_is_filled [] h = elim h [ ]
number_is_filled (c ∷ s) h = refl

trim_left-letter : (s : String) → trim_left (letter ∷ s) ≡ letter ∷ s
unfolding trim_left is_space nat_key
trim_left-letter s = refl

trim_space-trailer : (n : ℕ) → trim_space (trailer_of n) ≡ trailer ++ decimal n
unfolding trim_space
trim_space-trailer n =
    let t = decimal n ++ "\n" in
    let parts = cons-append letter "EAD_VERIFY bytes=" t in
    let digits = trim_right-Digits (decimal n) (decimal-Digits n).0 in
    ap trim_right (ap trim_left parts ∙ trim_left-letter ("EAD_VERIFY bytes=" ++ t) ∙ sym parts)
    ∙ trim_right-append trailer t
        (ap is_empty digits ∙ number_is_filled (decimal n) (decimal-IsNumber n))
    ∙ ap (λ (u : String). trailer ++ u) digits

-- The number of characters.
abbrev size : String → ℕ
size [] = 0
size (c ∷ s) = suc (size s)

drop_text-append : (s t : String) → drop_text (size s) (s ++ t) ≡ t
drop_text-append [] t = nil-append t
drop_text-append (c ∷ s) t = rw (cons-append c s t) (drop_text-append s t)

scan_int-number :
    (n : ℕ) (s : String)
    → IsNumber s
    → Digits s
    → scan_digits 0 s ≡ n
    → n ≤ max_int
    → scan_int s ≡ pos n
unfolding scan_int scan_signed scan_unsigned scan_digits nat_key
scan_int-number n [] h d e b = elim h [ ]
scan_int-number n (c ∷ s) h d e b = ground (arith, digit_is_no_space c)

pub scan_trailer_lem : (n : ℕ) → n ≤ max_int → scan_trailer (trim_space (trailer_of n)) ≡ pos n
unfolding scan_trailer
scan_trailer_lem n b =
    rw (trim_space-trailer n, has_prefix-append trailer (decimal n))
      (ap scan_int (drop_text-append trailer (decimal n))
        ∙ scan_int-number n (decimal n) (decimal-IsNumber n) (decimal-Digits n).0
            (decimal-Digits n).1 b)
