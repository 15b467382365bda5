-- ===== src/Worker/Files/Base64.antt =====
-- internal/runtime/files_shell.go: Go's base64.StdEncoding, on bytes as numbers below 256.
use Prim.Native.Char.{Char, code}
use Prim.Native.String.{[], ◌∷◌}
use sandbox_fleet.Base.{
  ℕ, zero, suc, ◌+◌, ◌*◌, ◌/◌, ◌%◌, ◌<◌, String, Bool, true, false, ◌≡◌, refl, ◌&&◌, not, List, [],
  ◌∷◌, Option, none, some, if◌then◌else◌, ◌==◌, nat_key, All, arith,
}
use sandbox_fleet.Store.Paths.{is_empty}

-- A byte.
abbrev pub IsByte : ℕ → Type 0
IsByte n = n < 256

abbrev alphabet : String
alphabet = "ABCDEFGHIJKLMNOPQRSTUVWXYZabcdefghijklmnopqrstuvwxyz0123456789+/"

-- The character at an index.
abbrev nth : String → ℕ → Char
nth [] n = "="
nth (c ∷ s) zero = c
nth (c ∷ s) (suc n) = nth s n

unfoldable pub symbol : ℕ → Char
symbol n = nth alphabet n

unfoldable pub position_from : ℕ → String → Char → Option ℕ
position_from i [] c = none
position_from i (d ∷ s) c =
    let later = position_from (suc i) s c in if code d == code c then some i else later

-- The six bits of a character.
unfoldable pub value : Char → Option ℕ
unfolding position_from
value c = position_from 0 alphabet c

unfoldable pub is_padding : Char → Bool
is_padding c = code c == 61

unfoldable pub encode : List ℕ → String
encode [] = ""
encode (a ∷ []) = symbol (a / 4) ∷ symbol (a % 4 * 16) ∷ "=="
encode (a ∷ b ∷ []) = symbol (a / 4) ∷ symbol (a % 4 * 16 + b / 16) ∷ symbol (b % 16 * 4) ∷ "="
encode (a ∷ b ∷ c ∷ rest) =
    symbol (a / 4)
    ∷ symbol (a % 4 * 16 + b / 16)
    ∷ symbol (b % 16 * 4 + c / 64)
    ∷ symbol (c % 64)
    ∷ encode rest

-- Three bytes of four values, before those of the rest.
unfoldable pub three_bytes : ℕ → ℕ → Option ℕ → Option ℕ → Option (List ℕ) → Option (List ℕ)
three_bytes a b (some c) (some d) (some rest) =
    some ((a * 4 + b / 16) ∷ (b % 16 * 16 + c / 4) ∷ (c % 4 * 64 + d) ∷ rest)
three_bytes a b _ _ _ = none

unfoldable pub two_bytes : ℕ → ℕ → Option ℕ → Option (List ℕ)
two_bytes a b none = none
two_bytes a b (some c) = some ((a * 4 + b / 16) ∷ (b % 16 * 16 + c / 4) ∷ [])

-- Four characters, where `last` says whether they are the last and the rest is decoded.
unfoldable pub decode_quantum :
    Option ℕ → Option ℕ → Char → Char → Bool → Option (List ℕ) → Option (List ℕ)
unfolding three_bytes two_bytes
decode_quantum (some a) (some b) c d last rest =
    if is_padding c
    then (if is_padding d && last then some ((a * 4 + b / 16) ∷ []) else none)
    else if is_padding d
    then (if last then two_bytes a b (value c) else none)
    else three_bytes a b (value c) (value d) rest
decode_quantum _ _ c d last rest = none

-- DecodeString of a text without line breaks; its errors are one.
unfoldable pub decode : String → Option (List ℕ)
unfolding decode_quantum
decode [] = some []
decode (c ∷ d ∷ e ∷ f ∷ s) =
    let rest = decode s in decode_quantum (value c) (value d) e f (is_empty s) rest
decode _ = none

all_below : ℕ → (ℕ → Bool) → Bool
all_below zero p = true
all_below (suc n) p = p n && all_below n p

all_below-true : (n : ℕ) (p : ℕ → Bool) (x : ℕ) → all_below n p ≡ true → x < n → p x ≡ true
unfolding all_below
all_below-true zero p x h lt = absurd (omega arith)
all_below-true (suc n) p x h lt = ground (arith, all_below-true n p x)

abbrev is_value : Option ℕ → ℕ → Bool
is_value none n = false
is_value (some m) n = m == n

-- What holds of every symbol: its value, and that it is neither padding nor an underscore.
abbrev fine : ℕ → Bool
fine n = is_value (value (symbol n)) n && not (is_padding (symbol n)) && not (code (symbol n) == 95)

fine_table : all_below 64 fine ≡ true
unfolding all_below value symbol nat_key is_padding
fine_table = refl

pub symbol-fine :
    (n : ℕ)
    → n < 64
    → (value (symbol n) ≡ some n)
      × (is_padding (symbol n) ≡ false)
      × ((code (symbol n) == 95) ≡ false)
symbol-fine n h = go (value (symbol n)) refl (all_below-true 64 fine n fine_table h)
  where
    go :
        (v : Option ℕ)
        → value (symbol n) ≡ v
        → (is_value v n && not (is_padding (symbol n)) && not (code (symbol n) == 95)) ≡ true
        → (value (symbol n) ≡ some n)
          × (is_padding (symbol n) ≡ false)
          × ((code (symbol n) == 95) ≡ false)
    go none e t = cc
    go (some m) e t = ground arith

padding : is_padding "=" ≡ true
unfolding is_padding nat_key
padding = refl

-- Padding aside, a text of whole bytes is decoded to them.
pub decode-encode : (bytes : List ℕ) → All IsByte bytes → decode (encode bytes) ≡ some bytes
unfolding decode encode decode_quantum three_bytes two_bytes
decode-encode [] h = refl
decode-encode (a ∷ []) h =
    let p = symbol-fine (a / 4) (omega (arith, h.0)) in
    let q = symbol-fine (a % 4 * 16) (omega arith) in
    let back : a / 4 * 4 + a % 4 * 16 / 16 ≡ a = omega arith in rw (p.0, q.0, padding, back) refl
decode-encode (a ∷ b ∷ []) h =
    let p = symbol-fine (a / 4) (omega (arith, h.0)) in
    let q = symbol-fine (a % 4 * 16 + b / 16) (omega (arith, h.1.0)) in
    let r = symbol-fine (b % 16 * 4) (omega arith) in
    let first : a / 4 * 4 + (a % 4 * 16 + b / 16) / 16 ≡ a = omega (arith, h.1.0) in
    let second : (a % 4 * 16 + b / 16) % 16 * 16 + b % 16 * 4 / 4 ≡ b = omega (arith, h.1.0) in
    rw (p.0, q.0, r.0, r.1, padding, first, second) refl
decode-encode (a ∷ b ∷ c ∷ rest) h =
    let p = symbol-fine (a / 4) (omega (arith, h.0)) in
    let q = symbol-fine (a % 4 * 16 + b / 16) (omega (arith, h.1.0)) in
    let r = symbol-fine (b % 16 * 4 + c / 64) (omega (arith, h.1.1.0)) in
    let t = symbol-fine (c % 64) (omega arith) in
    let first : a / 4 * 4 + (a % 4 * 16 + b / 16) / 16 ≡ a = omega (arith, h.1.0) in
    let second : (a % 4 * 16 + b / 16) % 16 * 16 + (b % 16 * 4 + c / 64) / 4 ≡ b =
      omega (arith, h.1.0, h.1.1.0) in
    let third : (b % 16 * 4 + c / 64) % 4 * 64 + c % 64 ≡ c = omega (arith, h.1.1.0) in
    rw (p.0, q.0, r.0, r.1, t.0, t.1, decode-encode rest h.1.1.1, first, second, third) refl
