-- ===== src/Worker/Files/Listed.antt =====
-- internal/runtime/files_shell.go and internal/worker/files_fs.go: what both ways to list a directory make
-- of the output of the command.
use Prim.Native.Char.{Char, code}
use Prim.Native.String.{[], ◌∷◌, ◌++◌}
use text.Mathlib.TextLemmas.{nil-append, cons-append, append-nil, append_assoc, cons≢nil}
use sandbox_fleet.Base.{
  String, Bool, true, false, ◌≡◌, ◌≢◌, ◌⊎◌, refl, ap, sym, ◌∙◌, subst, inl, inr, List, [], ◌∷◌,
  some, ◌==◌, ◌!=◌, ◌&&◌, nat_key, string_key, All, arith,
}
use sandbox_fleet.Base.Int.{ℤ, pos, int_key}
use sandbox_fleet.Base.Result.{ok}
use sandbox_fleet.Store.Paths.{is_space, trim_left, trim_right, trim_space, is_empty}
use sandbox_fleet.Http.Wire.{FileEntry as SandboxEntry}
use sandbox_fleet.Worker.Types.{ExecResult}
use sandbox_fleet.Worker.Files.Resolved.{ne-same}
use sandbox_fleet.Worker.Files.Splitting.{Free, split_at-append, split_at-whole}
use sandbox_fleet.Worker.Files.Shell.{ExecFunc, read_result}
use sandbox_fleet.Worker.Files.ReadBack.{Prints, zero_exit}
use sandbox_fleet.Worker.Files.Trailer.{trim_right-append, is_empty-append}
use sandbox_fleet.Worker.Files.Commands.{
  FileEntry, file_type_file, file_type_directory, is_break, split_lines, trim_break, cut_tab,
  entry_of, parse_lines, list_answer, list_request, list_files_via,
}
use sandbox_fleet.Worker.Files.Calls.{
  sandbox_entries, file_entry, parse_entries, parse_file_list, list_restored, exec_sandbox_fs,
}

-- What the command prints for an entry, and for a directory.
abbrev pub line_of : FileEntry → String
line_of e = e.kind ++ ("\t" ++ e.name)

abbrev pub printed : List FileEntry → String
printed [] = ""
printed (e ∷ entries) = line_of e ++ ("\n" ++ printed entries)

-- An entry that the command prints on one line: a file or a directory with a name without line breaks.
pub record IsEntry (e : FileEntry) : Type 0 where
  pub kind : (e.kind ≡ file_type_file) ⊎ (e.kind ≡ file_type_directory)
  pub named : e.name ≢ ""
  pub one_line : Free is_break e.name

char-append : (c : Char) (t : String) → (c ∷ "") ++ t ≡ c ∷ t
char-append c t = cons-append c "" t ∙ ap (λ (r : String). c ∷ r) (nil-append t)

abbrev is_tab : Char → Bool
is_tab c = code c == 9

abbrev tab : Char
tab = "\t"

abbrev break : Char
break = "\n"

-- What the two kinds have in common.
record IsKind (kind : String) : Type 0 where
  known : (kind != file_type_file && kind != file_type_directory) ≡ false
  tab_free : Free is_tab kind
  break_free : Free is_break kind
  starts : (t : String) → trim_left (kind ++ t) ≡ kind ++ t
  filled : (t : String) → is_empty (kind ++ t) ≡ false

file-IsKind : IsKind file_type_file
unfolding nat_key string_key trim_left is_space
file-IsKind = record {
  known = refl;
  tab_free = ground arith;
  break_free = ground arith;
  starts = λ t. rw cons-append refl;
  filled = λ t. rw cons-append refl;
}

directory-IsKind : IsKind file_type_directory
unfolding nat_key string_key trim_left is_space
directory-IsKind = record {
  known = refl;
  tab_free = ground arith;
  break_free = ground arith;
  starts = λ t. rw cons-append refl;
  filled = λ t. rw cons-append refl;
}

entry-IsKind : (e : FileEntry) → IsEntry e → IsKind e.kind
entry-IsKind e h = elim h.kind [
  | inl k ↦ subst IsKind (sym k) file-IsKind
  | inr k ↦ subst IsKind (sym k) directory-IsKind
]

cut_tab-append : (s t : String) → Free is_tab s → cut_tab (s ++ (tab ∷ t)) ≡ some (s, t)
unfolding cut_tab nat_key
cut_tab-append [] t h = rw (nil-append (tab ∷ t)) refl
cut_tab-append (c ∷ s) t (p, h) =
    rw (cons-append c s (tab ∷ t)) (rw (cut_tab-append s t h) (ground arith))

cut_tab-line : (e : FileEntry) → IsEntry e → cut_tab (line_of e) ≡ some (e.kind, e.name)
cut_tab-line e h =
    ap (λ (r : String). cut_tab (e.kind ++ r)) (char-append tab e.name)
    ∙ cut_tab-append e.kind e.name (entry-IsKind e h).tab_free

Free-append : (at : Char → Bool) (s t : String) → Free at s → Free at t → Free at (s ++ t)
Free-append at [] t h k = rw (nil-append t) k
Free-append at (c ∷ s) t (p, h) k = rw (cons-append c s t) (p, Free-append at s t h k)

line_of-Free : (e : FileEntry) → IsEntry e → Free is_break (line_of e)
unfolding nat_key
line_of-Free e h =
    Free-append is_break e.kind ("\t" ++ e.name) (entry-IsKind e h).break_free
      (Free-append is_break "\t" e.name (ground arith) h.one_line)

line_of-filled : (e : FileEntry) → IsEntry e → (line_of e == "") ≡ false
line_of-filled e h =
    ne-same (λ p. filled_ne_empty (line_of e) ((entry-IsKind e h).filled ("\t" ++ e.name)) p)
  where
    filled_ne_empty : (s : String) → is_empty s ≡ false → s ≢ ""
    filled_ne_empty [] f p = cc
    filled_ne_empty (c ∷ s) f p = cons≢nil p

entry_of-line : (e : FileEntry) → IsEntry e → entry_of (cut_tab (line_of e)) ≡ some e
unfolding entry_of
entry_of-line e h =
    rw (cut_tab-line e h) (rw (ne-same h.named) (rw ((entry-IsKind e h).known) refl))

split_lines-append :
    (s t : String) → Free is_break s → split_lines (s ++ ("\n" ++ t)) ≡ s ∷ split_lines t
unfolding split_lines nat_key
split_lines-append s t h =
    ap (λ (r : String). split_lines (s ++ r)) (char-append break t)
    ∙ split_at-append is_break break s t refl h

split_lines-whole : (s : String) → Free is_break s → split_lines s ≡ s ∷ []
unfolding split_lines
split_lines-whole s h = split_at-whole is_break s h

-- The output without the last line break.
abbrev body_of : FileEntry → List FileEntry → String
body_of e [] = line_of e
body_of e (f ∷ entries) = line_of e ++ ("\n" ++ body_of f entries)

abbrev lines_of : List FileEntry → List String
lines_of [] = []
lines_of (e ∷ entries) = line_of e ∷ lines_of entries

printed-body_of :
    (e : FileEntry) (entries : List FileEntry) → printed (e ∷ entries) ≡ body_of e entries ++ "\n"
printed-body_of e [] = ap (λ (r : String). line_of e ++ r) (append-nil "\n")
printed-body_of e (f ∷ entries) =
    ap (λ (r : String). line_of e ++ ("\n" ++ r)) (printed-body_of f entries) ∙ simp append_assoc

trim_break-append : (s : String) → trim_break (s ++ "\n") ≡ s
unfolding trim_break nat_key
trim_break-append [] = ap trim_break (nil-append "\n")
trim_break-append (c ∷ s) =
    let more = is_empty-append s "\n" refl in
    rw (cons-append c s "\n") (rw (trim_break-append s) (rw more refl))

split_lines-body_of :
    (e : FileEntry) (entries : List FileEntry)
    → All IsEntry (e ∷ entries)
    → split_lines (body_of e entries) ≡ lines_of (e ∷ entries)
split_lines-body_of e [] h = split_lines-whole (line_of e) (line_of-Free e h.0)
split_lines-body_of e (f ∷ entries) h =
    split_lines-append (line_of e) (body_of f entries) (line_of-Free e h.0)
    ∙ ap (λ (r : List String). line_of e ∷ r) (split_lines-body_of f entries h.1)

parse_lines-lines_of :
    (entries : List FileEntry) → All IsEntry entries → parse_lines (lines_of entries) ≡ entries
unfolding parse_lines
parse_lines-lines_of [] h = refl
parse_lines-lines_of (e ∷ entries) h =
    rw (line_of-filled e h.0, entry_of-line e h.0, parse_lines-lines_of entries h.1) refl

nothing_printed : parse_lines (split_lines (trim_break "")) ≡ []
unfolding parse_lines split_lines trim_break string_key
nothing_printed = refl

parse_lines-printed :
    (entries : List FileEntry)
    → All IsEntry entries
    → parse_lines (split_lines (trim_break (printed entries))) ≡ entries
parse_lines-printed [] h = nothing_printed
parse_lines-printed (e ∷ entries) h =
    ap (λ (r : String). parse_lines (split_lines r))
      (ap trim_break (printed-body_of e entries) ∙ trim_break-append (body_of e entries))
    ∙ ap parse_lines (split_lines-body_of e entries h)
    ∙ parse_lines-lines_of (e ∷ entries) h

-- The name does not end with white space.
abbrev pub EndsPlain : FileEntry → Type 0
EndsPlain e = trim_right e.name ≡ e.name

trim_space-line : (e : FileEntry) → IsEntry e → EndsPlain e → trim_space (line_of e) ≡ line_of e
unfolding trim_space
trim_space-line e h plain =
    let k = entry-IsKind e h in
    ap trim_right (k.starts ("\t" ++ e.name) ∙ sym (append_assoc e.kind "\t" e.name))
    ∙ trim_right-append (e.kind ++ "\t") e.name (ap is_empty plain ∙ named e.name h.named)
    ∙ ap (λ (r : String). (e.kind ++ "\t") ++ r) plain
    ∙ append_assoc e.kind "\t" e.name
  where
    named : (s : String) → s ≢ "" → is_empty s ≡ false
    named [] n = absurd (n refl)
    named (c ∷ s) n = refl

file_entry-line :
    (e : FileEntry)
    → IsEntry e
    → file_entry (cut_tab (line_of e)) ≡ some (record { name = e.name; kind = e.kind })
unfolding file_entry
file_entry-line e h = rw (cut_tab-line e h) refl

blank_line : parse_entries ("" ∷ []) ≡ []
unfolding parse_entries string_key
blank_line = refl

no_lines : split_lines "" ≡ "" ∷ []
unfolding split_lines
no_lines = refl

parse_entries-line :
    (e : FileEntry) (lines : List String)
    → IsEntry e
    → EndsPlain e
    → parse_entries (line_of e ∷ lines)
      ≡ record { name = e.name; kind = e.kind } ∷ parse_entries lines
unfolding parse_entries
parse_entries-line e lines h plain =
    rw (trim_space-line e h plain) (rw (line_of-filled e h, file_entry-line e h) refl)

parse_entries-printed :
    (entries : List FileEntry)
    → All IsEntry entries
    → All EndsPlain entries
    → parse_entries (split_lines (printed entries)) ≡ sandbox_entries entries
unfolding sandbox_entries
parse_entries-printed [] h plain = ap parse_entries no_lines ∙ blank_line
parse_entries-printed (e ∷ entries) (p, h) (q, plain) =
    ap parse_entries (split_lines-append (line_of e) (printed entries) (line_of-Free e p))
    ∙ parse_entries-line e (split_lines (printed entries)) p q
    ∙ ap (λ (r : List SandboxEntry). record { name = e.name; kind = e.kind } ∷ r)
        (parse_entries-printed entries h plain)

exit_is_zero : (i : ℤ) → i ≡ pos 0 → (i == pos 0) ≡ true
exit_is_zero i e = ground arith

list_answer-ended :
    (result : ExecResult)
    → result.exit_code ≡ pos 0
    → list_answer result ≡ ok (parse_lines (split_lines (trim_break result.stdout)))
unfolding list_answer
list_answer-ended result e = rw (zero_exit result.exit_code e) refl

list_restored-ended :
    (result : ExecResult)
    → result.exit_code ≡ pos 0
    → list_restored result ≡ ok (parse_file_list result.stdout)
unfolding list_restored
list_restored-ended result e = rw (exit_is_zero result.exit_code e) refl

parse_file_list-printed :
    (entries : List FileEntry)
    → All IsEntry entries
    → All EndsPlain entries
    → parse_file_list (printed entries) ≡ sandbox_entries entries
unfolding parse_file_list
parse_file_list-printed entries h plain = parse_entries-printed entries h plain

module _ {W : Type 0} (exec : ExecFunc W) (path : String) (w w' : W) (result : ExecResult) where
  list_files_via-read :
      exec w (list_request path) ≡ (w', ok result)
      → list_files_via exec path w ≡ (w', list_answer result)
  unfolding list_files_via read_result
  list_files_via-read e = rw e refl

  list_restored-read :
      exec w (list_request path) ≡ (w', ok result)
      → (exec_sandbox_fs exec).list path w ≡ (w', list_restored result)
  unfolding exec_sandbox_fs read_result list_request
  list_restored-read e = rw e refl

-- Where the command ends well and prints the entries of a directory, files and directories with names
-- that have no line break and end with no white space, both ways to list it return these entries.
pub list_files_via-printed :
    {W : Type 0} (exec : ExecFunc W) (path : String) (w w' : W) (result : ExecResult)
    (entries : List FileEntry)
    → All IsEntry entries
    → All EndsPlain entries
    → exec w (list_request path) ≡ (w', ok result)
    → Prints result (printed entries)
    → (list_files_via exec path w ≡ (w', ok entries))
      × ((exec_sandbox_fs exec).list path w ≡ (w', ok (sandbox_entries entries)))
list_files_via-printed exec path w w' result entries h plain ran (e, text) = (
  list_files_via-read exec path w w' result ran
      ∙ ap (λ r. (w', r))
          (list_answer-ended result e
            ∙ ap ok (
                ap (λ r. parse_lines (split_lines (trim_break r))) text
                ∙ parse_lines-printed entries h)),
  list_restored-read exec path w w' result ran
      ∙ ap (λ r. (w', r))
          (list_restored-ended result e
            ∙ ap ok (ap parse_file_list text ∙ parse_file_list-printed entries h plain)),
)
