-- ===== src/Recording/Store/Disk.antt =====
-- A disk of a few directories, with the behaviour that src/dr_exec/recording/store.py relies on.
use Prim.Native.String.{String, ◌++◌}
use text.Mathlib.Text.{◌==◌ as str_eq}
use text.Mathlib.TextEquality.{eq_iff}
use text.Mathlib.TextPositions.{eq_refl}
use dr_exec.Prelude.{
  ℕ, Bool, true, false, ◌&&◌, Option, none, some, List, [], ◌∷◌, ◌==◌, if◌then◌else◌, ◌≡◌, ◌≢◌,
  refl, arith, inl,
}
use dr_exec.Prelude.Integers.{pos}
use dr_exec.Prelude.Results.{Result, ok, err}
use dr_exec.Prelude.Json.{Json, integer, number, object, field, end_object, get}
use dr_exec.Recording.Runs.{RunRecord}
use dr_exec.Recording.Stored.{SidecarSummary}
use dr_exec.Recording.Store.Errors.{
  Exception, root, document_directory, sidecar_verification, mismatch, file_exists, other_os_error,
  is_file_exists, class_of,
}
use dr_exec.Recording.Store.Backend.{returned, raised, Backend, Codec}
use dr_exec.Recording.Store.Reading.{header_schema_version, object_version, integer_of}
use dr_exec.Recording.Store.Writing.{write_sidecar}
use dr_exec.Recording.Store.Laws.{BackendLaws, SidecarLaws, CodecLaws}

-- A float stands for a record.
abbrev pub Numbers : Type 0
Numbers = RunRecord ℕ ℕ

pub record Folder : Type 0 where
  pub name : String
  pub manifest : Option (Json Numbers)

pub record Written : Type 0 where
  pub dir : String
  pub name : String
  pub summary : SidecarSummary

pub record Disk : Type 0 where
  pub folders : List Folder
  pub sidecars : List Written

pub record Writer : Type 0 where
  pub dir : String
  pub name : String
  pub head_cap : ℕ
  pub tail_cap : ℕ

abbrev folder_of : String → List Folder → Option Folder
folder_of dir [] = none
folder_of dir (f ∷ fs) = if str_eq dir f.name then some f else folder_of dir fs

abbrev sidecar_of : String → String → List Written → Option SidecarSummary
sidecar_of dir name [] = none
sidecar_of dir name (w ∷ ws) =
    if str_eq dir w.dir && str_eq name w.name then some w.summary else sidecar_of dir name ws

abbrev missing_directory : Exception
missing_directory = root (document_directory "DocumentDirectoryError") none

abbrev manifest_of : Option Folder → Result Exception (Json Numbers)
manifest_of none = err missing_directory
manifest_of (some f) = elim f.manifest [ none ↦ err missing_directory | some j ↦ ok j ]

abbrev matches : Option SidecarSummary → String → ℕ → ℕ → Bool
matches none hash head tail = false
matches (some s) hash head tail =
    str_eq s.sidecar_hash hash && ((s.head_length == head) && (s.tail_length == tail))

abbrev is_present : Option Folder → Bool
is_present none = false
is_present (some f) = true

abbrev added : Folder → Disk → Disk
added f s = record s { folders = f ∷ s.folders }

abbrev pub disk_backend : Backend Numbers Writer Disk
disk_backend = record {
  join = λ path name. path ++ ("/" ++ name);
  mkdir = λ dir s.
      if is_present (folder_of dir s.folders)
      then raised (root file_exists (some (pos 17))) s
      else returned tt (added (record { name = dir; manifest = none }) s);
  is_directory = λ dir s.
      if is_present (folder_of dir s.folders)
      then ok true
      else err (root other_os_error (some (pos 2)));
  rmtree = λ dir s. raised (root other_os_error (some (pos 1))) s;
  open_directory = λ dir. ok tt;
  publish = λ dir j s.
      if is_present (folder_of dir s.folders)
      then returned tt (added (record { name = dir; manifest = some j }) s)
      else raised missing_directory s;
  read_manifest = λ dir s. manifest_of (folder_of dir s.folders);
  open_sidecar = λ dir name head_cap tail_cap s.
      returned (record { dir = dir; name = name; head_cap = head_cap; tail_cap = tail_cap }) s;
  write = λ w bytes s. returned tt s;
  finalize_sidecar = λ w s.
      let summary : SidecarSummary = record {
        head_length = w.head_cap;
        tail_length = w.tail_cap;
        sidecar_hash = "00";
      } in
      returned summary (record s {
        sidecars = record { dir = w.dir; name = w.name; summary = summary } ∷ s.sidecars;
      });
  verify_sidecar = λ dir name hash head tail s.
      if matches (sidecar_of dir name s.sidecars) hash head tail
      then ok tt
      else err (root (sidecar_verification mismatch) none);
  read_verified_child = λ dir name max_bytes size hash s. ok [];
}

abbrev record_field : Option (Json Numbers) → Option Numbers
record_field (some (number r)) = some r
record_field _ = none

abbrev read_record : Json Numbers → Option Numbers
read_record (object fields) = record_field (get "record" fields)
read_record _ = none

abbrev pub disk_codec : Codec Numbers ℕ ℕ
disk_codec = record {
  dump = λ r. object (
      field "header" (object (field "schema_version" (integer (pos 2)) end_object))
        (field "record" (number r) end_object));
  validate_json = read_record;
}

apart_names : (a b : String) → a ≢ b → str_eq a b ≡ false
apart_names a b apart = by_test (str_eq a b) refl
  where
    by_test : (t : Bool) → str_eq a b ≡ t → str_eq a b ≡ false
    by_test true e = absurd (apart ((eq_iff a b).0 e))
    by_test false e = e

elsewhere :
    (dir other : String) (m : Option (Json Numbers)) (fs : List Folder)
    → other ≢ dir
    → folder_of other (record { name = dir; manifest = m } ∷ fs) ≡ folder_of other fs
elsewhere dir other m fs apart = rw (apart_names other dir apart)

own_folder :
    (dir : String) (m : Option (Json Numbers)) (fs : List Folder)
    → folder_of dir (record { name = dir; manifest = m } ∷ fs)
      ≡ some (record { name = dir; manifest = m })
own_folder dir m fs = rw (eq_refl dir)

pub disk-BackendLaws : BackendLaws disk_backend
unfolding is_file_exists class_of write_sidecar
disk-BackendLaws = record {
  publish_returned = λ dir j s t h. let own = eq_refl dir in ground arith;
  publish_raised = λ dir j s e t h. inl (ground arith);
  publish_elsewhere = λ dir other j s apart.
      let away = elsewhere dir other (some j) s.folders apart in
      (ground arith, ground arith, (λ name hash head tail. ground arith));
  mkdir_over = λ dir j s h. (root file_exists (some (pos 17)), ground arith, refl);
  mkdir_new = λ dir s j h. let own = eq_refl dir in ground arith;
  mkdir_elsewhere = λ dir other s apart.
      let away = elsewhere dir other none s.folders apart in
      (ground arith, ground arith, (λ name hash head tail. ground arith));
  rmtree_new = λ dir s j h. h;
  rmtree_elsewhere = λ dir other s apart. (refl, refl, (λ name hash head tail. refl));
  sidecar_elsewhere = λ dir other name stream s apart wanted hash head tail.
      let away = apart_names other dir apart in ground arith;
  open_sidecar_same = λ dir other name head_cap tail_cap s. (refl, refl);
  write_same = λ other w bytes s. (refl, refl);
  finalize_sidecar_same = λ other w s. (refl, refl);
}

pub disk-SidecarLaws : SidecarLaws disk_backend
unfolding write_sidecar
disk-SidecarLaws = record {
  written_verifies = λ dir name stream s summary t h.
      let own = eq_refl dir in
      let named = eq_refl name in let hashed = eq_refl summary.sidecar_hash in ground arith;
  other_verifies = λ dir name other hash head tail stream s summary t apart v h.
      let away = apart_names name other apart in ground arith;
  published_verifies = λ dir j s name hash head tail. ground arith;
}

pub disk-CodecLaws : CodecLaws disk_codec
unfolding header_schema_version object_version integer_of
disk-CodecLaws = record { validate_dump = λ r valid. refl; version_dump = λ r. refl }
