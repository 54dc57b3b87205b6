-- ===== src/Core/Kinds.antt =====
-- The closed enumerations of src/dr_exec/core/kinds.py.
pub data RecordState : Type 0 where
  prepared running finalized : RecordState

pub data EnvGrantKind : Type 0 where
  none named fixed overlay : EnvGrantKind

pub data WorkingDirectoryGrantKind : Type 0 where
  scratch caller : WorkingDirectoryGrantKind

pub data LimitKind : Type 0 where
  unbudgeted finite : LimitKind

pub data OutputOverflowPolicy : Type 0 where
  fail marked_truncation : OutputOverflowPolicy

pub data ExecutionTargetKind : Type 0 where
  trusted_command trusted_python untrusted_command untrusted_python : ExecutionTargetKind
  in_process_importable_json : ExecutionTargetKind

pub data ContainmentProfile : Type 0 where
  process_boundary_only : ContainmentProfile

pub data OutcomeKind : Type 0 where
  exited signaled spawn_absent spawn_failed budget_exceeded protocol_failed : OutcomeKind
  cancelled : OutcomeKind

pub data BudgetAxis : Type 0 where
  wall_time input_bytes payload_output memory_bytes cpu_time process_count : BudgetAxis
  file_size_bytes open_file_count disk_bytes : BudgetAxis

pub data ProtocolFailureCode : Type 0 where
  malformed_frame oversized_frame unexpected_frame id_mismatch : ProtocolFailureCode
  duplicate_output incomplete_stream : ProtocolFailureCode

pub data FailureOwner : Type 0 where
  none payload executor machine : FailureOwner

pub data RecordReceiptKind : Type 0 where
  complete degraded not_applicable in_process worker_pool : RecordReceiptKind

pub data CapacitySource : Type 0 where
  auto fixed : CapacitySource

pub data ExecutionPoolState : Type 0 where
  created running draining closed broken : ExecutionPoolState

pub data ExecutorFailureCode : Type 0 where
  target_not_supported bootstrap_timeout transport_worker_failed : ExecutorFailureCode
  stdin_transport_taken protocol_transport_taken transport_join_timeout : ExecutorFailureCode
  bootstrap_start_failed recording_operation_failed pool_capacity_unresolved : ExecutorFailureCode
  pool_invalid_state pool_wrong_event_loop pool_no_scheduler scheduler_broken : ExecutorFailureCode
  worker_pool_target_mismatch worker_pool_entry_point_mismatch : ExecutorFailureCode
  importable_json_target_mismatch fake_no_response fake_receipt_mismatch : ExecutorFailureCode
