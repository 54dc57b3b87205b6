-- ===== src/Recording/References.antt =====
-- src/dr_exec/recording/references.py: the identities that are derived from a job's. `uuid5` is Python's.
use Prim.Native.String.{String, ◌++◌}
use dr_exec.Recording.Results.{RunRecordReference}

unfoldable pub job_id_name : String → String
job_id_name job_id = "dr-exec/job-id/" ++ job_id

module _ (uuid5 : String → String → String) where
  unfoldable pub attempt_id_for_job : String → String
  attempt_id_for_job job_id = uuid5 "0189d3f4-1c2b-7e3a-9f10-2b3c4d5e6f80" (job_id_name job_id)

  unfoldable pub record_reference_for_job : String → RunRecordReference
  record_reference_for_job job_id = record {
    record_id = uuid5 "0189d3f4-1c2b-7e3a-9f10-2b3c4d5e6f81" (job_id_name job_id);
  }
