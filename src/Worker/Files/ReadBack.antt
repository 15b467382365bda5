-- ===== src/Worker/Files/ReadBack.antt =====
-- internal/runtime/files_shell.go: what ReadFileVia makes of the output of its command.
use Prim.Native.Char.{Char, code}
use Prim.Native.String.{[], ◌∷◌, ◌++◌}
use text.Mathlib.TextLemmas.{nil-append, cons-append, cons≢nil}
use sandbox_fleet.Base.{
  ℕ, zero, suc, ◌+◌, ◌≤◌, String, true, false, ◌≡◌, ◌≢◌, ◌/◌, ◌%◌, ◌*◌, refl, subst, ap, sym, ◌∙◌,
  inl, inr, List, [], ◌∷◌, ◌++◌ as append, Option, none, some, if◌then◌else◌, ◌==◌, ◌!=◌, ◌||◌,
  nat_key, string_key, Bool-cases, arith, length, All,
}
use sandbox_fleet.Base.Int.{ℤ, pos, negsuc, int_key}
use sandbox_fleet.Base.Result.{Result, ok, err}
use sandbox_fleet.Http.Files.{max_file_bytes}
use sandbox_fleet.Worker.Types.{ExecResult, Failure, failure}
use sandbox_fleet.Store.Paths.{trim_space}
use sandbox_fleet.Worker.Files.Resolved.{eq-same, same-eq, same-ne, ne-same}
use sandbox_fleet.Worker.Files.Base64.{IsByte, symbol-fine, encode, decode, decode-encode}
use sandbox_fleet.Worker.Files.Shell.{
  ExecFunc, split_last, strip_breaks, max_int, scan_trailer, read_parts, miscounted, check_content,
  read_encoded, read_answer, read_request, read_result, read_file_via,
}
use sandbox_fleet.Worker.Files.Trailer.{
  trailer_of, split_last-append, split_last-trailer, Lacks, split_last-Lacks, scan_trailer_lem,
}

-- The command ended well with this output.
abbrev pub Prints : ExecResult → String → Type 0
Prints result text = (result.exit_code ≡ pos 0) × (result.stdout ≡ text)

pub zero_exit : (i : ℤ) → i ≡ pos 0 → (i != pos 0) ≡ false
zero_exit i e = ground arith

-- ReadFileVia after a command that ended well.
abbrev read_output : String → Result Failure (List ℕ)
read_output stdout = read_encoded (read_parts stdout (split_last stdout))

read_answer-ended :
    (result : ExecResult) (text : String)
    → Prints result text
    → read_answer result ≡ read_output text
unfolding read_answer
read_answer-ended result text (e, same) = rw (zero_exit result.exit_code e) (ap read_output same)

read_parts-some :
    (stdout before rest : String)
    → read_parts stdout (some (before, rest)) ≡ (before, scan_trailer (trim_space rest))
unfolding read_parts
read_parts-some stdout before rest = refl

read_parts-none : (stdout : String) → read_parts stdout none ≡ (stdout, negsuc 0)
unfolding read_parts
read_parts-none stdout = refl

read_answer-counted :
    (result : ExecResult) (body : String) (n : ℕ)
    → n ≤ max_int
    → Prints result (body ++ trailer_of n)
    → read_answer result ≡ read_encoded (body, pos n)
read_answer-counted result body n b printed =
    let text = body ++ trailer_of n in
    read_answer-ended result text printed
    ∙ ap (λ o. read_encoded (read_parts text o))
        (split_last-append body (trailer_of n) (split_last-trailer n))
    ∙ ap read_encoded (read_parts-some text body (trailer_of n))
    ∙ ap (λ want. read_encoded (body, want)) (scan_trailer_lem n b)

read_answer-uncounted :
    (result : ExecResult) (body : String)
    → Lacks 95 body
    → Prints result body
    → read_answer result ≡ read_encoded (body, negsuc 0)
read_answer-uncounted result body h printed =
    read_answer-ended result body printed
    ∙ ap (λ o. read_encoded (read_parts body o)) (split_last-Lacks body h)
    ∙ ap read_encoded (read_parts-none body)

encode-filled : (content : List ℕ) → content ≢ [] → encode content ≢ ""
unfolding encode
encode-filled [] h e = h refl
encode-filled (a ∷ []) h e = cons≢nil e
encode-filled (a ∷ b ∷ []) h e = cons≢nil e
encode-filled (a ∷ b ∷ c ∷ rest) h e = cons≢nil e

read_encoded-filled :
    (body : String) (want : ℤ)
    → strip_breaks body ≢ ""
    → read_encoded (body, want) ≡ check_content want (decode (strip_breaks body))
unfolding read_encoded
read_encoded-filled body want filled = rw (ne-same filled) refl

read_encoded-content :
    (body : String) (want : ℤ) (content : List ℕ)
    → strip_breaks body ≡ encode content
    → content ≢ []
    → All IsByte content
    → read_encoded (body, want) ≡ check_content want (some content)
read_encoded-content body want content e filled bytes =
    read_encoded-filled body want (λ p. encode-filled content filled (sym e ∙ p))
    ∙ ap (check_content want) (ap decode e ∙ decode-encode content bytes)

check_content-ok :
    (want : ℤ) (content : List ℕ)
    → miscounted want (length content) ≡ false
    → length content ≤ max_file_bytes
    → check_content want (some content) ≡ ok content
unfolding check_content
check_content-ok want content m b = ground arith

counted : (n : ℕ) → miscounted (pos n) n ≡ false
unfolding miscounted
counted n = ground arith

uncounted : (n : ℕ) → miscounted (negsuc 0) n ≡ false
unfolding miscounted
uncounted n = refl

read_encoded-empty : (body : String) → strip_breaks body ≡ "" → read_encoded (body, pos 0) ≡ ok []
unfolding read_encoded int_key
read_encoded-empty body e = rw (eq-same e) refl

-- The output of the command for a content: its base64 with line breaks anywhere, then the count.
abbrev pub PrintsContent : ExecResult → List ℕ → Type 0
PrintsContent result content =
    (body : String) × Prints result (body ++ trailer_of (length content))
    × (strip_breaks body ≡ encode content)

read_answer-content :
    (result : ExecResult) (content : List ℕ)
    → All IsByte content
    → length content ≤ max_file_bytes
    → PrintsContent result content
    → read_answer result ≡ ok content
unfolding encode
read_answer-content result [] bytes b (body, printed, e) =
    read_answer-counted result body 0 (omega arith) printed ∙ read_encoded-empty body e
read_answer-content result (a ∷ content) bytes b (body, printed, e) =
    let n = length (a ∷ content) in
    read_answer-counted result body n (omega arith) printed
    ∙ read_encoded-content body (pos n) (a ∷ content) e (cc) bytes
    ∙ check_content-ok (pos n) (a ∷ content) (counted n) b

read_file_via-read :
    {W : Type 0} (exec : ExecFunc W) (path : String) (w w' : W) (result : ExecResult)
    → exec w (read_request path) ≡ (w', ok result)
    → read_file_via exec path w ≡ (w', read_answer result)
unfolding read_file_via read_result
read_file_via-read exec path w w' result e = rw e refl

-- Where the command in the sandbox ends well and prints the base64 of a content, with line breaks
-- anywhere, and the trailer with its length, ReadFileVia returns the content. It is of bytes and no
-- longer than the limit.
pub read_file_via-content :
    {W : Type 0} (exec : ExecFunc W) (path : String) (w w' : W) (result : ExecResult)
    (content : List ℕ)
    → All IsByte content
    → length content ≤ max_file_bytes
    → exec w (read_request path) ≡ (w', ok result)
    → PrintsContent result content
    → read_file_via exec path w ≡ (w', ok content)
read_file_via-content exec path w w' result content bytes b ran printed =
    read_file_via-read exec path w w' result ran
    ∙ ap (λ r. (w', r)) (read_answer-content result content bytes b printed)

-- Where the guest counts n bytes, no content of another length is returned, whatever was printed before.
check_content-length :
    (n : ℕ) (decoded : Option (List ℕ)) (content : List ℕ)
    → check_content (pos n) decoded ≡ ok content
    → (length content ≡ n) × (length content ≤ max_file_bytes)
unfolding check_content miscounted
check_content-length n none content e = cc
check_content-length n (some bytes) content e = ground arith

empty_output : ℕ → Result Failure (List ℕ)
empty_output n = if pos n == pos 0 then ok [] else err (failure "empty stdout")

empty_output-length :
    (n : ℕ) (content : List ℕ)
    → empty_output n ≡ ok content
    → (length content ≡ n) × (length content ≤ max_file_bytes)
unfolding empty_output int_key
empty_output-length zero content e = ground arith
empty_output-length (suc n) content e = ground arith

read_encoded-blank :
    (n : ℕ) (body : String) (content : List ℕ)
    → strip_breaks body ≡ ""
    → read_encoded (body, pos n) ≡ ok content
    → (length content ≡ n) × (length content ≤ max_file_bytes)
unfolding read_encoded empty_output
read_encoded-blank n body content p e =
    let blank : read_encoded (body, pos n) ≡ empty_output n = rw (eq-same p) refl in
    empty_output-length n content (sym blank ∙ e)

read_encoded-length :
    (n : ℕ) (body : String) (content : List ℕ)
    → read_encoded (body, pos n) ≡ ok content
    → (length content ≡ n) × (length content ≤ max_file_bytes)
read_encoded-length n body content e = elim (Bool-cases (strip_breaks body == "")) [
  | inl p ↦ read_encoded-blank n body content (same-eq p) e
  | inr p ↦
      check_content-length n (decode (strip_breaks body)) content
        (sym (read_encoded-filled body (pos n) (same-ne p)) ∙ e)
]

result_of :
    {W : Type 0} {w w' : W} {r t : Result Failure (List ℕ)}
    → ◌≡◌ {A = W × Result Failure (List ℕ)} (w, r) (w', t)
    → r ≡ t
result_of e = ap (λ p. p.1) e

-- Where the command ends well and its output ends in the trailer for n bytes, ReadFileVia returns no
-- content of another length, and none above the limit, whatever was printed before the trailer.
pub read_file_via-counted :
    {W : Type 0} (exec : ExecFunc W) (path : String) (w w' : W) (result : ExecResult)
    (body : String) (n : ℕ) (content : List ℕ)
    → n ≤ max_int
    → exec w (read_request path) ≡ (w', ok result)
    → Prints result (body ++ trailer_of n)
    → read_file_via exec path w ≡ (w', ok content)
    → (length content ≡ n) × (length content ≤ max_file_bytes)
read_file_via-counted exec path w w' result body n content b ran printed e =
    read_encoded-length n body content (
      sym (read_answer-counted result body n b printed)
      ∙ result_of (sym (read_file_via-read exec path w w' result ran) ∙ e))

-- Whole groups of three bytes.
abbrev pub AreTriples : List ℕ → Type 0
AreTriples [] = Unit
AreTriples (a ∷ []) = ⊥
AreTriples (a ∷ b ∷ []) = ⊥
AreTriples (a ∷ b ∷ c ∷ rest) = AreTriples rest

encode-append :
    (front back : List ℕ)
    → AreTriples front
    → encode (append front back) ≡ encode front ++ encode back
unfolding encode
encode-append [] back h = sym (nil-append (encode back))
encode-append (a ∷ []) back h = elim h [ ]
encode-append (a ∷ b ∷ []) back h = elim h [ ]
encode-append (a ∷ b ∷ c ∷ rest) back h = simp (cons-append, encode-append rest back h)

encode-Lacks :
    (content : List ℕ) → AreTriples content → All IsByte content → Lacks 95 (encode content)
unfolding encode
encode-Lacks [] h bytes = tt
encode-Lacks (a ∷ []) h bytes = elim h [ ]
encode-Lacks (a ∷ b ∷ []) h bytes = elim h [ ]
encode-Lacks (a ∷ b ∷ c ∷ rest) h bytes =
    let p = symbol-fine (a / 4) (omega (arith, bytes.0)) in
    let q = symbol-fine (a % 4 * 16 + b / 16) (omega (arith, bytes.1.0)) in
    let r = symbol-fine (b % 16 * 4 + c / 64) (omega (arith, bytes.1.1.0)) in
    let t = symbol-fine (c % 64) (omega arith) in
    (p.2, (q.2, (r.2, (t.2, encode-Lacks rest h bytes.1.1.1))))

strip_breaks-dropped :
    (c : Char) (s : String)
    → (code c == 10 || code c == 13) ≡ true
    → strip_breaks (c ∷ s) ≡ strip_breaks s
unfolding strip_breaks
strip_breaks-dropped c s e = rw e refl

strip_breaks-kept :
    (c : Char) (s : String)
    → (code c == 10 || code c == 13) ≡ false
    → strip_breaks (c ∷ s) ≡ c ∷ strip_breaks s
unfolding strip_breaks
strip_breaks-kept c s e = rw e refl

break_is_no_mark : (n : ℕ) → (n == 10 || n == 13) ≡ true → (n == 95) ≡ false
unfolding nat_key
break_is_no_mark n e = ground arith

strip_breaks-Lacks : (s : String) → Lacks 95 (strip_breaks s) → Lacks 95 s
strip_breaks-Lacks [] h = tt
strip_breaks-Lacks (c ∷ s) h = elim (Bool-cases (code c == 10 || code c == 13)) [
  | inl e ↦ (
    break_is_no_mark (code c) e,
    strip_breaks-Lacks s (subst (Lacks 95) (strip_breaks-dropped c s e) h),
  )
  | inr e ↦
      let kept : Lacks 95 (c ∷ strip_breaks s) = subst (Lacks 95) (strip_breaks-kept c s e) h in
      (kept.0, strip_breaks-Lacks s kept.1)
]

-- Where the output ends before the trailer, after whole groups of the base64, ReadFileVia returns what
-- there is as if it were the whole content.
pub read_file_via-cut :
    {W : Type 0} (exec : ExecFunc W) (path : String) (w w' : W) (result : ExecResult)
    (front back : List ℕ) (body : String)
    → All IsByte front
    → AreTriples front
    → front ≢ []
    → length front ≤ max_file_bytes
    → exec w (read_request path) ≡ (w', ok result)
    → Prints result body
    → strip_breaks body ≡ encode front
    → (encode (append front back) ≡ encode front ++ encode back)
      × (read_file_via exec path w ≡ (w', ok front))
read_file_via-cut exec path w w' result front back body bytes triples filled b ran printed e =
    let lacks =
      strip_breaks-Lacks body (subst (Lacks 95) (sym e) (encode-Lacks front triples bytes)) in
    (
      encode-append front back triples,
      read_file_via-read exec path w w' result ran
          ∙ ap (λ r. (w', r))
              (read_answer-uncounted result body lacks printed
                ∙ read_encoded-content body (negsuc 0) front e filled bytes
                ∙ check_content-ok (negsuc 0) front (uncounted (length front)) b),
    )
