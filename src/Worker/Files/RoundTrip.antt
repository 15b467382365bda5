-- ===== src/Worker/Files/RoundTrip.antt =====
-- internal/worker/files.go: what WriteSandboxFile wrote is what ReadSandboxFile returns.
use sandbox_fleet.Base.{
  ℕ, String, ◌≡◌, refl, ap, sym, ◌∙◌, inl, inr, List, [], ◌∷◌, All, arith, nat_key, string_key,
  length, ltb, Bool-cases,
}
use sandbox_fleet.Base.Result.{Result, ok, err}
use text.Mathlib.TextEquality.{eq_iff}
use sandbox_fleet.Store.Paths.{is_slash, trim_space}
use sandbox_fleet.Http.Wire.{FileRequest}
use sandbox_fleet.Http.Files.{max_file_bytes}
use sandbox_fleet.Worker.Types.{Failure, Env}
use sandbox_fleet.Worker.Slots.{wrap_failure}
use sandbox_fleet.Worker.Manager.{Manager}
use sandbox_fleet.Worker.Files.Paths.{
  default_files_root, join_rest, path_join, resolve_under_root, validate_write_name,
}
use sandbox_fleet.Worker.Files.Resolved.{IsName}
use sandbox_fleet.Worker.Files.Written.{resolve_under_root-written}
use sandbox_fleet.Worker.Files.Calls.{
  FileRuntime, SandboxFs, running_slot, with_fs, with_path, read_sandbox_file, write_checked,
  write_sandbox_file,
}

-- The root of the files, /app, is one proper name below /.
pub files_root-IsName : All IsName ("app" ∷ [])
unfolding is_slash nat_key
files_root-IsName = (
  record {
    part = record {
      slash_free = (refl, (refl, (refl, tt)));
      filled = ground (arith, eq_iff "app" "");
      not_here = ground (arith, eq_iff "app" ".");
    };
    not_up = ground (arith, eq_iff "app" "..");
  },
  tt,
)

resolved :
    (name : String)
    → validate_write_name name ≡ ok tt
    → trim_space name ≡ name
    → resolve_under_root default_files_root name ≡ ok (path_join default_files_root name)
unfolding join_rest
resolved name valid plain =
    (resolve_under_root-written "app" [] files_root-IsName name valid).1 plain

wrap_failure-ok :
    {W T : Type 0} (r : W × Result Failure T) (w : W) (t : T)
    → wrap_failure r ≡ (w, ok t)
    → r ≡ (w, ok t)
unfolding wrap_failure
wrap_failure-ok (v, ok s) w t e = cc
wrap_failure-ok (v, err f) w t e = cc

-- What was written to a path is there until the next write.
abbrev pub WritesBack : {W : Type 0} → SandboxFs W → Type 0
WritesBack {W} fs =
    (path : String) (content : List ℕ) (w w' : W)
    → fs.write path content w ≡ (w', ok tt)
    → (v : W) × (fs.read path w' ≡ (v, ok content))

module _ {W A : Type 0} (env : Env W A) (files : FileRuntime W) where
  abbrev read_at : String → SandboxFs W → W → W × Result Failure (List ℕ)
  read_at path fs = fs.read path

  read_sandbox_file_lem :
      (req : FileRequest) (w : W) (m : Manager A)
      → read_sandbox_file env files req w m
        ≡ with_path env files
            (resolve_under_root default_files_root req.path)
            (running_slot env files req m)
            read_at
            w
  unfolding read_sandbox_file
  read_sandbox_file_lem req w m = refl

  with_path-ok :
      (path : String) (fs : SandboxFs W) (w : W)
      → with_path env files (ok path) (ok fs) read_at w ≡ wrap_failure (fs.read path w)
  unfolding with_path
  with_path-ok path fs w = refl

  wrap_failure_ok : (w : W) (content : List ℕ) → wrap_failure (w, ok content) ≡ (w, ok content)
  unfolding wrap_failure
  wrap_failure_ok w content = refl

  read_file-of_path :
      (req : FileRequest) (path : String) (fs : SandboxFs W) (w v : W) (m : Manager A)
      (content : List ℕ)
      → resolve_under_root default_files_root req.path ≡ ok path
      → running_slot env files req m ≡ ok fs
      → fs.read path w ≡ (v, ok content)
      → read_sandbox_file env files req w m ≡ (v, ok content)
  read_file-of_path req path fs w v m content e running found =
      read_sandbox_file_lem req w m
      ∙ ap (λ p. with_path env files p (running_slot env files req m) read_at w) e
      ∙ ap (λ r. with_path env files (ok path) r read_at w) running
      ∙ with_path-ok path fs w
      ∙ ap wrap_failure found
      ∙ wrap_failure_ok v content

  write_sandbox_file_lem :
      (req : FileRequest) (content : List ℕ) (w : W) (m : Manager A)
      → write_sandbox_file env files req content w m
        ≡ write_checked env files (validate_write_name req.path) req content w m
  unfolding write_sandbox_file
  write_sandbox_file_lem req content w m = refl

  write_checked-ok :
      (req : FileRequest) (content : List ℕ) (w w' : W) (m : Manager A)
      → write_checked env files (ok tt) req content w m ≡ (w', ok tt)
      → with_fs env files
          (running_slot env files req m)
          (λ fs. fs.write (path_join default_files_root req.path) content)
          w
        ≡ (w', ok tt)
  unfolding write_checked
  write_checked-ok req content w w' m e = elim (Bool-cases (ltb max_file_bytes (length content))) [
    | inl p ↦ ground arith
    | inr p ↦ ground arith
  ]

  with_fs-ok :
      (req : FileRequest) (content : List ℕ) (fs : SandboxFs W) (w : W)
      → with_fs env files (ok fs) (λ fs. fs.write (path_join default_files_root req.path) content) w
        ≡ wrap_failure (fs.write (path_join default_files_root req.path) content w)
  unfolding with_fs
  with_fs-ok req content fs w = refl

  written :
      (req : FileRequest) (content : List ℕ) (fs : SandboxFs W) (w w' : W) (m : Manager A)
      → running_slot env files req m ≡ ok fs
      → validate_write_name req.path ≡ ok tt
      → write_sandbox_file env files req content w m ≡ (w', ok tt)
      → fs.write (path_join default_files_root req.path) content w ≡ (w', ok tt)
  written req content fs w w' m running valid e =
      let path = path_join default_files_root req.path in
      wrap_failure-ok (fs.write path content w) w' tt (
        sym (with_fs-ok req content fs w)
        ∙ ap (λ r. with_fs env files r (λ (s : SandboxFs W). s.write path content) w) (sym running)
        ∙ write_checked-ok req content w w' m (
            ap (λ r. write_checked env files r req content w m) (sym valid)
            ∙ sym (write_sandbox_file_lem req content w m)
            ∙ e))

  -- A content that WriteSandboxFile wrote under a name without white space at its ends is what
  -- ReadSandboxFile of the same request then returns. The files of the running sandbox keep what is written.
  pub read-write_sandbox_file :
      (req : FileRequest) (content : List ℕ) (fs : SandboxFs W) (w w' : W) (m : Manager A)
      → running_slot env files req m ≡ ok fs
      → WritesBack fs
      → validate_write_name req.path ≡ ok tt
      → trim_space req.path ≡ req.path
      → write_sandbox_file env files req content w m ≡ (w', ok tt)
      → (v : W) × (read_sandbox_file env files req w' m ≡ (v, ok content))
  read-write_sandbox_file req content fs w w' m running back valid plain e =
      let (v, found) =
        back (path_join default_files_root req.path) content w w'
          (written req content fs w w' m running valid e) in
      (
        v,
        read_file-of_path req (path_join default_files_root req.path) fs w' v m content
            (resolved req.path valid plain) running found,
      )
