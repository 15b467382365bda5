-- ===== src/Worker/Files/Commands.antt =====
-- internal/runtime/files_shell.go: the commands that write a file, list a directory and look for a file in
-- a sandbox.
use Prim.Native.Char.{Char, code}
use Prim.Native.String.{[], ◌∷◌}
use sandbox_fleet.Base.{
  ℕ, String, Bool, ◌&&◌, List, [], ◌∷◌, Option, none, some, if◌then◌else◌, ◌==◌, ◌!=◌, nat_key,
  string_key, ltb, length,
}
use sandbox_fleet.Base.Int.{pos, int_key}
use sandbox_fleet.Base.Result.{Result, ok, err}
use sandbox_fleet.Base.Text.{decimal}
use sandbox_fleet.Store.Paths.{is_empty, trim_space}
use sandbox_fleet.Http.Files.{max_file_bytes}
use sandbox_fleet.Worker.Types.{ExecRequest, ExecResult, Failure, failure}
use sandbox_fleet.Worker.Files.Paths.{split_at}
use sandbox_fleet.Worker.Files.Base64.{encode}
use sandbox_fleet.Worker.Files.Shell.{ExecFunc, read_result}

-- runtime.FileEntry
pub record FileEntry : Type 0 where
  pub name : String
  pub kind : String

abbrev pub file_type_file : String
file_type_file = "file"

abbrev pub file_type_directory : String
file_type_directory = "directory"

abbrev pub write_script : String
write_script =
    "mkdir -p \"$(dirname -- \"$1\")\" || exit 1\nprintf %s \"$2\" | base64 -d > \"$1\" || exit 1\ngot=$(wc -c < \"$1\" | tr -d ' \\t\\n')\necho \"WRITE_VERIFY path=$1 want=$3 got=$got\"\ntest \"$got\" = \"$3\"\n"

unfoldable pub write_request : String → List ℕ → ExecRequest
unfolding encode decimal
write_request path content = record {
  command =
      "sh" ∷ "-c" ∷ write_script ∷ "write" ∷ path ∷ encode content ∷ decimal (length content) ∷ [];
  timeout = 60;
}

unfoldable pub write_answer : ExecResult → Result Failure (Unit {0})
write_answer result = if result.exit_code != pos 0 then err (failure "write") else ok tt

unfoldable pub write_file_via :
    {W : Type 0} → ExecFunc W → String → List ℕ → W → W × Result Failure (Unit {0})
unfolding write_request write_answer read_result
write_file_via exec path content w =
    if ltb max_file_bytes (length content)
    then (w, err (failure "content exceeds the limit"))
    else read_result (exec w (write_request path content)) write_answer

abbrev pub list_script : String
list_script =
    "\nif [ ! -d \"$1\" ]; then\n  echo \"not a directory\" >&2\n  exit 2\nfi\nls -1A \"$1\" 2>/dev/null | while IFS= read -r name; do\n  [ -n \"$name\" ] || continue\n  if [ -d \"$1/$name\" ]; then\n    printf 'directory\\t%s\\n' \"$name\"\n  else\n    printf 'file\\t%s\\n' \"$name\"\n  fi\ndone\n"

unfoldable pub list_request : String → ExecRequest
list_request path = record {
  command = "sh" ∷ "-c" ∷ list_script ∷ "list" ∷ path ∷ [];
  timeout = 30;
}

abbrev pub is_break : Char → Bool
is_break c = code c == 10

-- strings.Split at a line break.
unfoldable pub split_lines : String → List String
unfolding split_at
split_lines s = split_at is_break s

-- strings.TrimSuffix of a line break.
unfoldable pub trim_break : String → String
trim_break [] = ""
trim_break (c ∷ s) = let rest = trim_break s in if is_empty s && is_break c then "" else c ∷ rest

abbrev after_tab : Char → Option (String × String) → Option (String × String)
after_tab c none = none
after_tab c (some (before, rest)) = some (c ∷ before, rest)

-- strings.Cut at a tab.
unfoldable pub cut_tab : String → Option (String × String)
cut_tab [] = none
cut_tab (c ∷ s) = let later = cut_tab s in if code c == 9 then some ("", s) else after_tab c later

-- Whether a line is an entry of ListFilesVia, and which.
unfoldable pub entry_of : Option (String × String) → Option FileEntry
entry_of none = none
entry_of (some (kind, name)) =
    if name == ""
    then none
    else if kind != file_type_file && kind != file_type_directory
    then none
    else some (record { name = name; kind = kind })

abbrev pub add_entry {ℓ} : {E : Type ℓ} → Option E → List E → List E
add_entry none entries = entries
add_entry (some e) entries = e ∷ entries

-- The loop of ListFilesVia.
unfoldable pub parse_lines : List String → List FileEntry
unfolding entry_of cut_tab
parse_lines [] = []
parse_lines (line ∷ lines) =
    let rest = parse_lines lines in
    if line == "" then rest else add_entry (entry_of (cut_tab line)) rest

unfoldable pub list_answer : ExecResult → Result Failure (List FileEntry)
unfolding parse_lines split_lines trim_break
list_answer result =
    if result.exit_code != pos 0
    then err (failure "list")
    else ok (parse_lines (split_lines (trim_break result.stdout)))

unfoldable pub list_files_via :
    {W : Type 0} → ExecFunc W → String → W → W × Result Failure (List FileEntry)
unfolding list_request list_answer read_result
list_files_via exec path w = read_result (exec w (list_request path)) list_answer

unfoldable pub exists_request : String → ExecRequest
exists_request path = record {
  command = "sh" ∷ "-c" ∷ "if [ -e \"$1\" ]; then echo 1; else echo 0; fi" ∷ "exists" ∷ path ∷ [];
  timeout = 30;
}

unfoldable pub exists_answer : ExecResult → Result Failure Bool
unfolding trim_space
exists_answer result =
    if result.exit_code != pos 0
    then err (failure "exists")
    else ok (trim_space result.stdout == "1")

unfoldable pub file_exists_via : {W : Type 0} → ExecFunc W → String → W → W × Result Failure Bool
unfolding exists_request exists_answer read_result
file_exists_via exec path w = read_result (exec w (exists_request path)) exists_answer
