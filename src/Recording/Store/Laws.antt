-- ===== src/Recording/Store/Laws.antt =====
-- The documented behaviour of the file system, of dr_store and of pydantic that
-- src/dr_exec/recording/store.py relies on.
use Prim.Native.String.{String}
use dr_exec.Prelude.{ℕ, true, ◌≡◌, ◌≢◌, some, List, ◌⊎◌}
use dr_exec.Prelude.Integers.{pos}
use dr_exec.Prelude.Results.{ok, Returns}
use dr_exec.Prelude.Json.{Json}
use dr_exec.Recording.Streams.{RetainedPayloadStream}
use dr_exec.Recording.Stored.{SidecarSummary}
use dr_exec.Recording.Runs.{RunRecord, prepared, running, finalized, validate_finalized}
use dr_exec.Recording.Store.Errors.{Exception, is_file_exists}
use dr_exec.Recording.Store.Backend.{returned, raised, after, Backend, Codec}
use dr_exec.Recording.Store.Reading.{header_schema_version}
use dr_exec.Recording.Store.Writing.{write_sidecar}

module _ {N W S : Type 0} (backend : Backend N W S) where
  -- Two disks have the same manifest, or none, in one record's directory.
  abbrev pub Same : String → S → S → Type 0
  Same dir s t =
      (backend.is_directory dir t ≡ backend.is_directory dir s)
      × (backend.read_manifest dir t ≡ backend.read_manifest dir s)

  -- Two disks verify the same sidecars in it.
  abbrev pub SameSidecars : String → S → S → Type 0
  SameSidecars dir s t =
      (name hash : String) (head tail : ℕ)
      → backend.verify_sidecar dir name hash head tail t
        ≡ backend.verify_sidecar dir name hash head tail s

  -- Nothing that is read of the directory has changed.
  abbrev pub Untouched : String → S → S → Type 0
  Untouched dir s t =
      (backend.is_directory dir t ≡ backend.is_directory dir s)
      × (backend.read_manifest dir t ≡ backend.read_manifest dir s)
      × SameSidecars dir s t

  -- The directory has this manifest.
  abbrev pub HasManifest : String → Json N → S → Type 0
  HasManifest dir j t =
      (backend.is_directory dir t ≡ ok true) × (backend.read_manifest dir t ≡ ok j)

  -- Every manifest that the directory has after, it had before.
  abbrev pub MadeNone : String → S → S → Type 0
  MadeNone dir s t =
      (j : Json N) → backend.read_manifest dir t ≡ ok j → backend.read_manifest dir s ≡ ok j

  -- Every manifest that the directory has after, it had before, or it is this one.
  abbrev pub MadeOnly : String → Json N → S → S → Type 0
  MadeOnly dir j s t =
      (k : Json N)
      → backend.read_manifest dir t ≡ ok k
      → (backend.read_manifest dir s ≡ ok k) ⊎ (k ≡ j)

pub record BackendLaws {N W S : Type 0} (backend : Backend N W S) : Type 0 where
  -- A manifest is published as a whole, or not at all: publishing that raised may have replaced it.
  pub publish_returned :
      (dir : String) (j : Json N) (s t : S)
      → backend.publish dir j s ≡ returned tt t
      → HasManifest backend dir j t
  pub publish_raised :
      (dir : String) (j : Json N) (s : S) (e : Exception) (t : S)
      → backend.publish dir j s ≡ raised e t
      → Same backend dir s t ⊎ HasManifest backend dir j t
  pub publish_elsewhere :
      (dir other : String) (j : Json N) (s : S)
      → other ≢ dir
      → Untouched backend other s (after (backend.publish dir j s))
  -- A directory with a manifest is not made anew, and a new one has none.
  pub mkdir_over :
      (dir : String) (j : Json N) (s : S)
      → backend.read_manifest dir s ≡ ok j
      → (e : Exception) × (backend.mkdir dir s ≡ raised e s) × (is_file_exists e ≡ true)
  pub mkdir_new : (dir : String) (s : S) → MadeNone backend dir s (after (backend.mkdir dir s))
  pub mkdir_elsewhere :
      (dir other : String) (s : S)
      → other ≢ dir
      → Untouched backend other s (after (backend.mkdir dir s))
  pub rmtree_new : (dir : String) (s : S) → MadeNone backend dir s (after (backend.rmtree dir s))
  pub rmtree_elsewhere :
      (dir other : String) (s : S)
      → other ≢ dir
      → Untouched backend other s (after (backend.rmtree dir s))
  -- Sidecars are no manifests, and no sidecars of another directory.
  pub sidecar_elsewhere :
      (dir other name : String) (stream : RetainedPayloadStream) (s : S)
      → other ≢ dir
      → SameSidecars backend other s (after (write_sidecar backend dir name stream s))
  pub open_sidecar_same :
      (dir other name : String) (head_cap tail_cap : ℕ) (s : S)
      → Same backend other s (after (backend.open_sidecar dir name head_cap tail_cap s))
  pub write_same :
      (other : String) (w : W) (bytes : List ℕ) (s : S)
      → Same backend other s (after (backend.write w bytes s))
  pub finalize_sidecar_same :
      (other : String) (w : W) (s : S) → Same backend other s (after (backend.finalize_sidecar w s))

-- A sidecar verifies by the summary of its writer, and neither another sidecar nor a manifest
-- changes that.
pub record SidecarLaws {N W S : Type 0} (backend : Backend N W S) : Type 0 where
  pub written_verifies :
      (dir name : String) (stream : RetainedPayloadStream) (s : S) (summary : SidecarSummary)
      (t : S)
      → write_sidecar backend dir name stream s ≡ returned summary t
      → backend.verify_sidecar dir name summary.sidecar_hash summary.head_length summary.tail_length
          t
        ≡ ok tt
  pub other_verifies :
      (dir name other hash : String) (head tail : ℕ) (stream : RetainedPayloadStream) (s : S)
      (summary : SidecarSummary) (t : S)
      → name ≢ other
      → backend.verify_sidecar dir name hash head tail s ≡ ok tt
      → write_sidecar backend dir other stream s ≡ returned summary t
      → backend.verify_sidecar dir name hash head tail t ≡ ok tt
  pub published_verifies :
      (dir : String) (j : Json N) (s : S)
      → SameSidecars backend dir s (after (backend.publish dir j s))

-- What the validator of a whole record demands.
abbrev pub IsValidRecord : {D R : Type 0} → RunRecord D R → Type 0
IsValidRecord (prepared r) = Unit
IsValidRecord (running r) = Unit
IsValidRecord (finalized r) = Returns (validate_finalized r)

-- A record survives being dumped, with the version in its header.
pub record CodecLaws {N D R : Type 0} (codec : Codec N D R) : Type 0 where
  pub validate_dump :
      (r : RunRecord D R) → IsValidRecord r → codec.validate_json (codec.dump r) ≡ some r
  pub version_dump : (r : RunRecord D R) → header_schema_version (codec.dump r) ≡ some (pos 2)
