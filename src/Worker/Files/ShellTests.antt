-- ===== src/Worker/Files/ShellTests.antt =====
-- internal/runtime/files_shell.go at concrete outputs of the shell.
use Prim.Native.String.{◌++◌}
use sandbox_fleet.Base.{
  ℕ, ◌+◌, ◌≤◌, String, ◌≡◌, refl, inl, inr, List, [], ◌∷◌, ◌++◌ as append, All, length, arith,
  string_key, nat_key,
}
use sandbox_fleet.Base.Int.{pos, int_key}
use sandbox_fleet.Base.Text.{decimal}
use sandbox_fleet.Base.Result.{ok}
use sandbox_fleet.Store.Paths.{is_space, trim_right}
use text.Mathlib.TextEquality.{eq_iff}
use sandbox_fleet.Http.Files.{max_file_bytes}
use sandbox_fleet.Worker.Types.{ExecResult}
use sandbox_fleet.Worker.Files.Base64.{IsByte, symbol, value, is_padding, encode}
use sandbox_fleet.Worker.Files.Shell.{ExecFunc, strip_breaks, read_answer, read_file_via}
use sandbox_fleet.Worker.Files.Trailer.{trailer_of}
use sandbox_fleet.Worker.Files.ReadBack.{
  read_file_via-content, read_file_via-counted, read_file_via-cut,
}
use sandbox_fleet.Worker.Files.Commands.{FileEntry, list_files_via}
use sandbox_fleet.Worker.Files.Calls.{sandbox_entries, exec_sandbox_fs}
use sandbox_fleet.Worker.Files.Listed.{IsEntry, EndsPlain, printed, list_files_via-printed}

-- The world counts the commands.
abbrev prints : String → ExecFunc ℕ
prints text w req = (w + 1, ok (record { exit_code = pos 0; stdout = text; stderr = "" }))

abbrev output : String → ExecResult
output text = record { exit_code = pos 0; stdout = text; stderr = "" }

abbrev greeting : List ℕ
greeting = 72 ∷ 105 ∷ 33 ∷ []

greeting-IsByte : All IsByte greeting
greeting-IsByte = omega arith

encoded : strip_breaks "SGk\nh\n" ≡ encode greeting
unfolding strip_breaks encode symbol nat_key
encoded = refl

decoded : read_answer (output "SGkh\nREAD_VERIFY bytes=3\n") ≡ ok greeting
unfolding read_answer nat_key string_key int_key value is_padding
decoded = refl

read_file_via-content_example :
    read_file_via (prints ("SGk\nh\n" ++ trailer_of 3)) "/app/a" 0 ≡ (1, ok greeting)
read_file_via-content_example =
    read_file_via-content (prints ("SGk\nh\n" ++ trailer_of 3)) "/app/a" 0 1
      (output ("SGk\nh\n" ++ trailer_of 3)) greeting greeting-IsByte (omega arith) refl
      ("SGk\nh\n", (refl, refl), encoded)

read_whole : read_file_via (prints ("SGk\nh\n" ++ trailer_of 3)) "/app/a" 0 ≡ (1, ok greeting)
unfolding read_file_via nat_key string_key int_key value is_padding decimal
read_whole = refl

read_file_via-counted_example : (length greeting ≡ 3) × (length greeting ≤ max_file_bytes)
read_file_via-counted_example =
    read_file_via-counted (prints ("SGk\nh\n" ++ trailer_of 3)) "/app/a" 0 1
      (output ("SGk\nh\n" ++ trailer_of 3)) "SGk\nh\n" 3 greeting (omega arith) refl (refl, refl)
      read_whole

-- The output ends before the last byte of the file and the trailer.
read_file_via-cut_example :
    (encode (append greeting (10 ∷ [])) ≡ encode greeting ++ encode (10 ∷ []))
    × (read_file_via (prints "SGk\nh\n") "/app/a" 0 ≡ (1, ok greeting))
read_file_via-cut_example =
    read_file_via-cut (prints "SGk\nh\n") "/app/a" 0 1 (output "SGk\nh\n") greeting (10 ∷ [])
      "SGk\nh\n" greeting-IsByte tt (λ p. cc p) (omega arith) refl (refl, refl) encoded

abbrev entries : List FileEntry
entries = record { name = "a\tb"; kind = "file" } ∷ record { name = "src"; kind = "directory" } ∷ []

entries-IsEntry : All IsEntry entries
unfolding nat_key
entries-IsEntry = (
  record { kind = inl refl; named = ground (arith, eq_iff "a\tb" ""); one_line = ground arith },
  (
    record { kind = inr refl; named = ground (arith, eq_iff "src" ""); one_line = ground arith },
    tt,
  ),
)

entries-EndsPlain : All EndsPlain entries
unfolding trim_right is_space nat_key
entries-EndsPlain = (refl, (refl, tt))

list_files_via-printed_example :
    (list_files_via (prints (printed entries)) "/app" 0 ≡ (1, ok entries))
    × ((exec_sandbox_fs (prints (printed entries))).list "/app" 0
        ≡ (1, ok (sandbox_entries entries)))
list_files_via-printed_example =
    list_files_via-printed (prints (printed entries)) "/app" 0 1 (output (printed entries)) entries
      entries-IsEntry entries-EndsPlain refl (refl, refl)
