-- ===== src/Retry/Errors.antt =====
-- `is_transient` of retry.py.
use ha_timescaledb_recorder.Prelude.{Bool, false, ◌||◌, if◌then◌else◌}

-- What `isinstance` says of an exception, for each class that `is_transient` asks about.
pub record Error : Type 0 where
  pub program_limit_exceeded : Bool
  pub operational_error : Bool
  pub interface_error : Bool
  pub os_error : Bool
  pub read_only_sql_transaction : Bool
  pub insufficient_privilege : Bool
  pub internal_error : Bool

unfoldable pub is_transient : Error → Bool
is_transient e =
    if e.program_limit_exceeded
    then false
    else e.operational_error || e.interface_error || e.os_error || e.read_only_sql_transaction
      || e.insufficient_privilege || e.internal_error
