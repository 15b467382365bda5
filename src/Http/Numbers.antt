-- ===== src/Http/Numbers.antt =====
-- internal/worker/httpapi: the slot of a URL is written with %d and read with strconv.ParseInt.
use Prim.Native.Char.{code}
use Prim.Native.String.{[], ◌∷◌, ◌++◌}
use text.Mathlib.TextLemmas.{nil-append, cons-append}
use sandbox_fleet.Base.{
  ℕ, zero, suc, ◌+◌, ◌*◌, ◌-◌, ◌/◌, ◌%◌, ◌<◌, ◌≤◌, String, Bool, true, false, ◌≡◌, refl, ap, ◌∙◌,
  Option, some, none, if◌then◌else◌, ltb, nat_key, arith,
}
use sandbox_fleet.Base.Int.{pos}
use sandbox_fleet.Base.Text.{digit, decimal_within, decimal}
use sandbox_fleet.Http.Wire.{parse_digits, parse_number, parse_int32}

-- What is parsed after the digits of a first part.
abbrev parse_after : Option ℕ → String → Option ℕ
parse_after none t = none
parse_after (some m) t = parse_digits m t

parse_digits-append :
    (n : ℕ) (s t : String) → parse_digits n (s ++ t) ≡ parse_after (parse_digits n s) t
unfolding parse_digits
parse_digits-append n [] t = rw (nil-append t) refl
parse_digits-append n (c ∷ s) t =
    rw (cons-append c s t) (ground (arith, parse_digits-append (n * 10 + (code c - 48)) s t))

-- A text that starts with no sign.
abbrev pub IsNumber : String → Type 0
IsNumber [] = ⊥
IsNumber (c ∷ s) = 48 ≤ code c

IsNumber-append : (s t : String) → IsNumber s → IsNumber (s ++ t)
IsNumber-append [] t h = elim h [ ]
IsNumber-append (c ∷ s) t h = rw (cons-append c s t) h

digit-IsNumber : (d : ℕ) → d < 10 → IsNumber (digit d)
digit-IsNumber zero h = omega arith
digit-IsNumber (suc zero) h = omega arith
digit-IsNumber (suc (suc zero)) h = omega arith
digit-IsNumber (suc (suc (suc zero))) h = omega arith
digit-IsNumber (suc (suc (suc (suc zero)))) h = omega arith
digit-IsNumber (suc (suc (suc (suc (suc zero))))) h = omega arith
digit-IsNumber (suc (suc (suc (suc (suc (suc zero)))))) h = omega arith
digit-IsNumber (suc (suc (suc (suc (suc (suc (suc zero))))))) h = omega arith
digit-IsNumber (suc (suc (suc (suc (suc (suc (suc (suc zero)))))))) h = omega arith
digit-IsNumber (suc (suc (suc (suc (suc (suc (suc (suc (suc zero))))))))) h = omega arith
digit-IsNumber (suc (suc (suc (suc (suc (suc (suc (suc (suc (suc d)))))))))) h =
    absurd (omega arith)

parse_digits-digit : (n d : ℕ) → d < 10 → parse_digits n (digit d) ≡ some (n * 10 + d)
unfolding parse_digits
parse_digits-digit n zero h = ground arith
parse_digits-digit n (suc zero) h = ground arith
parse_digits-digit n (suc (suc zero)) h = ground arith
parse_digits-digit n (suc (suc (suc zero))) h = ground arith
parse_digits-digit n (suc (suc (suc (suc zero)))) h = ground arith
parse_digits-digit n (suc (suc (suc (suc (suc zero))))) h = ground arith
parse_digits-digit n (suc (suc (suc (suc (suc (suc zero)))))) h = ground arith
parse_digits-digit n (suc (suc (suc (suc (suc (suc (suc zero))))))) h = ground arith
parse_digits-digit n (suc (suc (suc (suc (suc (suc (suc (suc zero)))))))) h = ground arith
parse_digits-digit n (suc (suc (suc (suc (suc (suc (suc (suc (suc zero))))))))) h = ground arith
parse_digits-digit n (suc (suc (suc (suc (suc (suc (suc (suc (suc (suc d)))))))))) h =
    absurd (omega arith)

pub decimal_within-IsNumber : (digits n : ℕ) → n < digits → IsNumber (decimal_within digits n)
unfolding decimal_within
decimal_within-IsNumber zero n h = absurd (omega arith)
decimal_within-IsNumber (suc digits) n h =
    go (ltb n 10) refl (decimal_within-IsNumber digits (n / 10))
  where
    go :
        (b : Bool)
        → ltb n 10 ≡ b
        → (n / 10 < digits → IsNumber (decimal_within digits (n / 10)))
        → IsNumber (if b then digit n else decimal_within digits (n / 10) ++ digit (n % 10))
    go true e ih = digit-IsNumber n (ground arith)
    go false e ih =
        IsNumber-append (decimal_within digits (n / 10)) (digit (n % 10)) (ih (ground arith))

pub parse_digits-decimal_within :
    (digits n : ℕ) → n < digits → parse_digits 0 (decimal_within digits n) ≡ some n
unfolding decimal_within
parse_digits-decimal_within zero n h = absurd (omega arith)
parse_digits-decimal_within (suc digits) n h =
    go (ltb n 10) refl (parse_digits-decimal_within digits (n / 10))
  where
    go :
        (b : Bool)
        → ltb n 10 ≡ b
        → (n / 10 < digits → parse_digits 0 (decimal_within digits (n / 10)) ≡ some (n / 10))
        → parse_digits 0 (if b then digit n else decimal_within digits (n / 10) ++ digit (n % 10))
          ≡ some n
    go true e ih = parse_digits-digit 0 n (ground arith) ∙ ap some (omega arith)
    go false e ih = rw (parse_digits-append 0 (decimal_within digits (n / 10)) (digit (n % 10))) (
        rw (ih (ground arith))
          (rw (parse_digits-digit (n / 10) (n % 10) (omega arith)) (ap some (omega arith))))

-- A number without a sign is read as its digits.
parse_int32-of_IsNumber :
    (s : String) (n : ℕ)
    → IsNumber s
    → parse_digits 0 s ≡ some n
    → n ≤ 2147483647
    → parse_int32 s ≡ some (pos n)
unfolding parse_int32 parse_number nat_key
parse_int32-of_IsNumber [] n h e b = elim h [ ]
parse_int32-of_IsNumber (c ∷ s) n h e b = ground arith

pub parse_int32-decimal : (n : ℕ) → n ≤ 2147483647 → parse_int32 (decimal n) ≡ some (pos n)
unfolding decimal
parse_int32-decimal n b =
    parse_int32-of_IsNumber (decimal_within (suc n) n) n
      (decimal_within-IsNumber (suc n) n (omega arith))
      (parse_digits-decimal_within (suc n) n (omega arith)) b
