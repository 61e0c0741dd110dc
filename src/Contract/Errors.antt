-- ===== src/Contract/Errors.antt =====
-- api/src/contract/errors.ts: the closed vocabulary of error kinds.
pub data ErrorKind : Type 0 where
  invalid_replay_id replay_not_found replay_empty_log replay_too_large : ErrorKind
  replay_malformed replay_transport_failure replay_timeout : ErrorKind
  engine_unavailable engine_data_missing analysis_rejected analysis_parse_failed : ErrorKind
  engine_crashed engine_internal_error : ErrorKind
  unknown_profile invalid_request rate_limited analysis_not_found : ErrorKind
