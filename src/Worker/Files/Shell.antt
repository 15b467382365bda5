-- ===== src/Worker/Files/Shell.antt =====
-- internal/runtime/files_shell.go: the files of a sandbox through a shell in it. `exec` runs a command in
-- the sandbox. The errors that wrap no sentinel are `failure`.
use Prim.Native.Char.{Char, code}
use Prim.Native.String.{[], ◌∷◌}
use sandbox_fleet.Base.{
  ℕ, zero, suc, ◌+◌, ◌*◌, ◌-◌, String, Bool, true, false, ◌&&◌, ◌||◌, not, List, [], ◌∷◌, Option,
  none, some, if◌then◌else◌, ◌==◌, ◌!=◌, nat_key, string_key, ltb, length,
}
use sandbox_fleet.Base.Int.{ℤ, pos, negsuc, int_key}
use sandbox_fleet.Base.Result.{Result, ok, err}
use sandbox_fleet.Store.Paths.{is_space, trim_space, has_prefix}
use sandbox_fleet.Http.Files.{max_file_bytes}
use sandbox_fleet.Worker.Types.{ExecRequest, ExecResult, Failure, failure}
use sandbox_fleet.Worker.Files.Base64.{decode}

abbrev pub ExecFunc : Type 0 → Type 0
ExecFunc W = W → ExecRequest → W × Result Failure ExecResult

-- The result of a command, read by its caller.
unfoldable pub read_result :
    {W T : Type 0}
    → W × Result Failure ExecResult
    → (ExecResult → Result Failure T)
    → W × Result Failure T
read_result (w, ok result) read = (w, read result)
read_result (w, err e) read = (w, err e)

abbrev pub trailer : String
trailer = "READ_VERIFY bytes="

-- The text before the last trailer, and the text from it.
abbrev pub after_first : Char → String → Bool → Option (String × String) → Option (String × String)
after_first c s here (some (before, rest)) = some (c ∷ before, rest)
after_first c s here none = if here then some ("", c ∷ s) else none

-- strings.LastIndex of the trailer.
unfoldable pub split_last : String → Option (String × String)
unfolding has_prefix
split_last [] = none
split_last (c ∷ s) = after_first c s (has_prefix (c ∷ s) trailer) (split_last s)

-- strings.Map in ReadFileVia: the text without line breaks.
unfoldable pub strip_breaks : String → String
strip_breaks [] = ""
strip_breaks (c ∷ s) =
    let rest = strip_breaks s in if code c == 10 || code c == 13 then rest else c ∷ rest

abbrev pub drop_text : ℕ → String → String
drop_text zero s = s
drop_text (suc n) [] = ""
drop_text (suc n) (c ∷ s) = drop_text n s

abbrev pub is_digit : Char → Bool
is_digit c = not (ltb (code c) 48) && not (ltb 57 (code c))

-- The number of the digits at the start of a text, after those that were read.
unfoldable pub scan_digits : ℕ → String → ℕ
scan_digits n [] = n
scan_digits n (c ∷ s) =
    let rest = scan_digits (n * 10 + (code c - 48)) s in if is_digit c then rest else n

abbrev pub max_int : ℕ
max_int = 9223372036854775807

-- The digits of %d, with their sign. -1 is what `wantBytes` keeps where nothing is scanned.
unfoldable pub scan_unsigned : Bool → String → ℤ
unfolding scan_digits
scan_unsigned minus [] = negsuc 0
scan_unsigned minus (c ∷ s) =
    let n = scan_digits 0 (c ∷ s) in
    if not (is_digit c)
    then negsuc 0
    else if minus
    then (if ltb (max_int + 1) n then negsuc 0 else if n == 0 then pos 0 else negsuc (n - 1))
    else if ltb max_int n
    then negsuc 0
    else pos n

unfoldable pub scan_signed : String → ℤ
unfolding scan_unsigned
scan_signed [] = negsuc 0
scan_signed (c ∷ s) =
    if code c == 45
    then scan_unsigned true s
    else if code c == 43
    then scan_unsigned false s
    else scan_unsigned false (c ∷ s)

-- %d skips spaces, and fails at a line break.
unfoldable pub scan_int : String → ℤ
unfolding scan_signed is_space
scan_int [] = negsuc 0
scan_int (c ∷ s) =
    let rest = scan_int s in if is_space c && code c != 10 then rest else scan_signed (c ∷ s)

-- fmt.Sscanf with the trailer and %d.
unfoldable pub scan_trailer : String → ℤ
unfolding scan_int has_prefix
scan_trailer meta = if has_prefix meta trailer then scan_int (drop_text 18 meta) else negsuc 0

-- The output before the trailer, and the count in it, if there is one.
unfoldable pub read_parts : String → Option (String × String) → String × ℤ
unfolding scan_trailer trim_space
read_parts stdout none = (stdout, negsuc 0)
read_parts stdout (some (before, rest)) = (before, scan_trailer (trim_space rest))

-- `wantBytes >= 0 && len(data) != wantBytes`
unfoldable pub miscounted : ℤ → ℕ → Bool
miscounted (pos n) have = have != n
miscounted (negsuc n) have = false

-- ReadFileVia, where the output is decoded.
unfoldable pub check_content : ℤ → Option (List ℕ) → Result Failure (List ℕ)
unfolding miscounted
check_content want none = err (failure "decode file content")
check_content want (some content) =
    if miscounted want (length content)
    then err (failure "decoded another number of bytes than the guest counts")
    else if ltb max_file_bytes (length content)
    then err (failure "file exceeds the limit")
    else ok content

-- ReadFileVia, where the line breaks of the output are gone.
unfoldable pub read_encoded : String × ℤ → Result Failure (List ℕ)
unfolding check_content decode strip_breaks
read_encoded (body, want) =
    let encoded = strip_breaks body in
    if encoded == ""
    then (if want == pos 0 then ok [] else err (failure "empty stdout"))
    else check_content want (decode encoded)

unfoldable pub read_answer : ExecResult → Result Failure (List ℕ)
unfolding read_encoded read_parts split_last
read_answer result =
    if result.exit_code != pos 0
    then err (failure "read")
    else read_encoded (read_parts result.stdout (split_last result.stdout))

abbrev pub read_script : String
read_script =
    "\nset -e\nf=\"$1\"\nn=$(wc -c < \"$f\" | tr -d ' \\t\\n')\nif [ \"$n\" = 0 ]; then\n  printf 'READ_VERIFY bytes=0\\n'\n  exit 0\nfi\nbase64 \"$f\"\nprintf 'READ_VERIFY bytes=%s\\n' \"$n\"\n"

unfoldable pub read_request : String → ExecRequest
read_request path = record {
  command = "sh" ∷ "-c" ∷ read_script ∷ "read" ∷ path ∷ [];
  timeout = 60;
}

unfoldable pub read_file_via : {W : Type 0} → ExecFunc W → String → W → W × Result Failure (List ℕ)
unfolding read_answer read_result read_request
read_file_via exec path w = read_result (exec w (read_request path)) read_answer
