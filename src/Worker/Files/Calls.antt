-- ===== src/Worker/Files/Calls.antt =====
-- internal/worker/files.go and files_fs.go: the calls of SlotManager for the files of a running sandbox.
-- Logging is left out.
use Prim.Native.String.{[], ◌∷◌}
use sandbox_fleet.Base.{
  ℕ, String, Bool, List, [], ◌∷◌, Option, none, some, if◌then◌else◌, ◌==◌, string_key, ltb, length,
}
use sandbox_fleet.Base.Int.{pos, int_key}
use sandbox_fleet.Base.Result.{Result, ok, err}
use sandbox_fleet.Store.Paths.{trim_space}
use sandbox_fleet.Http.Wire.{FileRequest, FileEntry}
use sandbox_fleet.Http.Files.{max_file_bytes}
use sandbox_fleet.Worker.Types.{
  Identity, RuntimeId, ExecResult, Failure, failure, Error, invalid_request, wrapped, Runtime, Env,
}
use sandbox_fleet.Worker.Slots.{
  ManagedSlot, validate_identity, running_ref, exec_restored, wrap_failure,
}
use sandbox_fleet.Worker.Manager.{Manager, get_slot}
use sandbox_fleet.Worker.Files.Paths.{
  PathError, default_files_root, path_join, resolve_under_root, validate_write_name,
}
use sandbox_fleet.Worker.Files.Shell.{ExecFunc, read_result, read_file_via}
use sandbox_fleet.Worker.Files.Commands.{
  FileEntry as RuntimeEntry, write_file_via, list_files_via, file_exists_via, list_script,
  split_lines, cut_tab, add_entry,
}

-- The operations of the interface Runtime on files.
pub record FileRuntime (W : Type 0) : Type 0 where
  pub file_exists : RuntimeId → String → W → W × Result Failure Bool
  pub list_files : RuntimeId → String → W → W × Result Failure (List RuntimeEntry)
  pub read_file : RuntimeId → String → W → W × Result Failure (List ℕ)
  pub write_file : RuntimeId → String → List ℕ → W → W × Result Failure (Unit {0})

-- internal/runtime/cri/files.go: the files of a runtime through its own exec.
unfoldable pub files_of_runtime : {W A : Type 0} → Runtime W A → FileRuntime W
unfolding file_exists_via list_files_via read_file_via write_file_via
files_of_runtime rt = record {
  file_exists = λ id. file_exists_via (λ w req. rt.exec w id req);
  list_files = λ id. list_files_via (λ w req. rt.exec w id req);
  read_file = λ id. read_file_via (λ w req. rt.exec w id req);
  write_file = λ id. write_file_via (λ w req. rt.exec w id req);
}

-- sandboxFS
pub record SandboxFs (W : Type 0) : Type 0 where
  pub exists : String → W → W × Result Failure Bool
  pub list : String → W → W × Result Failure (List FileEntry)
  pub read : String → W → W × Result Failure (List ℕ)
  pub write : String → List ℕ → W → W × Result Failure (Unit {0})

-- The loop of criSandboxFS.List.
unfoldable pub sandbox_entries : List RuntimeEntry → List FileEntry
sandbox_entries [] = []
sandbox_entries (e ∷ entries) = record { name = e.name; kind = e.kind } ∷ sandbox_entries entries

unfoldable pub list_cri :
    {W : Type 0} → W × Result Failure (List RuntimeEntry) → W × Result Failure (List FileEntry)
unfolding sandbox_entries
list_cri (w, err e) = (w, err e)
list_cri (w, ok entries) = (w, ok (sandbox_entries entries))

unfoldable pub cri_sandbox_fs : {W : Type 0} → FileRuntime W → RuntimeId → SandboxFs W
unfolding list_cri
cri_sandbox_fs rt id = record {
  exists = λ path w. rt.file_exists id path w;
  list = λ path w. list_cri (rt.list_files id path w);
  read = λ path w. rt.read_file id path w;
  write = λ path content w. rt.write_file id path content w;
}

-- A line of the output as an entry.
unfoldable pub file_entry : Option (String × String) → Option FileEntry
file_entry none = none
file_entry (some (kind, name)) = some (record { name = name; kind = kind })

-- The loop of parseFileList.
unfoldable pub parse_entries : List String → List FileEntry
unfolding trim_space cut_tab file_entry
parse_entries [] = []
parse_entries (line ∷ lines) =
    let rest = parse_entries lines in
    let trimmed = trim_space line in
    if trimmed == "" then rest else add_entry (file_entry (cut_tab trimmed)) rest

unfoldable pub parse_file_list : String → List FileEntry
unfolding parse_entries split_lines
parse_file_list stdout = parse_entries (split_lines stdout)

unfoldable pub exists_restored : ExecResult → Result Failure Bool
exists_restored result = ok (result.exit_code == pos 0)

unfoldable pub list_restored : ExecResult → Result Failure (List FileEntry)
unfolding parse_file_list
list_restored result =
    if result.exit_code == pos 0 then ok (parse_file_list result.stdout) else err (failure "list")

-- execSandboxFS
unfoldable pub exec_sandbox_fs : {W : Type 0} → ExecFunc W → SandboxFs W
unfolding read_result exists_restored list_restored read_file_via write_file_via
exec_sandbox_fs exec = record {
  exists = λ path w.
      read_result
        (exec w (record {
          command = "sh" ∷ "-c" ∷ "test -e \"$1\"" ∷ "exists" ∷ path ∷ [];
          timeout = 15;
        }))
        exists_restored;
  list = λ path w.
      read_result
        (exec w (record { command = "sh" ∷ "-c" ∷ list_script ∷ "list" ∷ path ∷ []; timeout = 30 }))
        list_restored;
  read = λ path w. read_file_via exec path w;
  write = λ path content w. write_file_via exec path content w;
}

-- The error of execRestored as one of the shell's commands: that no snapshotter is there has no sentinel.
unfoldable pub exec_failure :
    {W : Type 0} → W × Result Error ExecResult → W × Result Failure ExecResult
exec_failure (w, ok result) = (w, ok result)
exec_failure (w, err (wrapped e)) = (w, err e)
exec_failure (w, err e) = (w, err (failure "no snapshotter"))

module _ {W A : Type 0} (env : Env W A) (files : FileRuntime W) where
  unfoldable pub sandbox_fs_for : ManagedSlot A → RuntimeId → SandboxFs W
  unfolding exec_sandbox_fs cri_sandbox_fs exec_restored exec_failure
  sandbox_fs_for c id =
      if c.restored
      then exec_sandbox_fs (λ w req. exec_failure (exec_restored env w id req))
      else cri_sandbox_fs files id

  -- runningSlot of a slot that was looked up.
  unfoldable pub fs_of : Identity → Result Error (ManagedSlot A) → Result Error (SandboxFs W)
  unfolding running_ref sandbox_fs_for
  fs_of identity (err e) = err e
  fs_of identity (ok c) = elim (running_ref identity c) [
    | err e ↦ err e
    | ok id ↦ ok (sandbox_fs_for c id)
  ]

  unfoldable pub running_slot : FileRequest → Manager A → Result Error (SandboxFs W)
  unfolding validate_identity get_slot fs_of
  running_slot req m = elim (validate_identity req.identity) [
    | err e ↦ err e
    | ok _ ↦ fs_of req.identity (get_slot m req.slot_id)
  ]

  module _ {T : Type 0} where
    unfoldable pub with_fs :
        Result Error (SandboxFs W)
        → (SandboxFs W → W → W × Result Failure T)
        → W
        → W × Result Error T
    unfolding wrap_failure
    with_fs (err e) call w = (w, err e)
    with_fs (ok fs) call w = wrap_failure (call fs w)

    -- A call for the path of a request, resolved or refused.
    unfoldable pub with_path :
        Result PathError String
        → Result Error (SandboxFs W)
        → (String → SandboxFs W → W → W × Result Failure T)
        → W
        → W × Result Error T
    unfolding with_fs
    with_path (err e) fs call w = (w, err invalid_request)
    with_path (ok path) fs call w = with_fs fs (call path) w

  unfoldable pub exists_sandbox_file : FileRequest → W → Manager A → W × Result Error Bool
  unfolding resolve_under_root running_slot with_path
  exists_sandbox_file req w m =
      with_path (resolve_under_root default_files_root req.path) (running_slot req m)
        (λ path fs. fs.exists path) w

  unfoldable pub list_sandbox_files :
      FileRequest → W → Manager A → W × Result Error (List FileEntry)
  unfolding resolve_under_root running_slot with_path
  list_sandbox_files req w m =
      with_path (resolve_under_root default_files_root req.path) (running_slot req m)
        (λ path fs. fs.list path) w

  unfoldable pub read_sandbox_file : FileRequest → W → Manager A → W × Result Error (List ℕ)
  unfolding resolve_under_root running_slot with_path
  read_sandbox_file req w m =
      with_path (resolve_under_root default_files_root req.path) (running_slot req m)
        (λ path fs. fs.read path) w

  -- WriteSandboxFile, where the name is checked.
  unfoldable pub write_checked :
      Result PathError (Unit {0})
      → FileRequest
      → List ℕ
      → W
      → Manager A
      → W × Result Error (Unit {0})
  unfolding running_slot with_fs path_join
  write_checked (err e) req content w m = (w, err invalid_request)
  write_checked (ok _) req content w m =
      if ltb max_file_bytes (length content)
      then (w, err invalid_request)
      else with_fs (running_slot req m)
          (λ fs. fs.write (path_join default_files_root req.path) content) w

  unfoldable pub write_sandbox_file :
      FileRequest → List ℕ → W → Manager A → W × Result Error (Unit {0})
  unfolding validate_write_name write_checked
  write_sandbox_file req content w m = write_checked (validate_write_name req.path) req content w m
