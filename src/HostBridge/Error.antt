-- ===== src/HostBridge/Error.antt =====
-- The error codes of internal/hostbridge, and the outcome of an operation that may fail.
use noqeri_registry.Prelude.Fallible.{Fallible}
pub use noqeri_registry.Prelude.Fallible.{
  ok, err, ◌>>=◌, ◌>>◌, refuse, Fallible-cases, >>=-eq-ok, >>-eq-ok, ok-injective,
}
use noqeri_registry.Prelude.Text.{Bytes, codes}

-- One constructor for each text that the package gives to `errors.New` or to a result's `Error`.
pub data Error : Type 0 where
  unsupported_protocol invalid_id unknown_operation invalid_request : Error
  invalid_argument_count unregistered_extern : Error
  unsupported_database database_driver_not_linked database_configuration_missing : Error
  postgres_dsn_invalid postgres_verified_tls_required sqlite_path_not_allowed : Error
  database_open_failed database_unavailable too_many_database_handles : Error
  invalid_database_handle transaction_already_open transaction_begin_failed : Error
  no_active_transaction transaction_finish_failed : Error
  too_many_parameters invalid_parameter parameter_too_long invalid_number : Error
  unsupported_parameter_type invalid_sql database_execution_failed : Error
  database_query_failed database_columns_failed too_many_result_columns : Error
  result_row_limit_exceeded database_scan_failed result_cell_too_large : Error
  database_iteration_failed : Error
  invalid_method request_too_large invalid_url invalid_port : Error
  provider_host_not_allowed provider_tenant_not_configured literal_ip_denied : Error
  provider_secret_unavailable planetscale_token_id_missing : Error
  upstream_unavailable invalid_upstream_status upstream_read_failed : Error
  upstream_body_too_large : Error
  invalid_destination dns_failed dial_failed no_public_destination : Error
  stripe_webhook_oversized stripe_webhook_secret_missing : Error
  stripe_webhook_timestamp_invalid stripe_webhook_signature_missing : Error
  stripe_webhook_timestamp_expired stripe_webhook_signature_mismatch : Error

unfoldable pub code : Error → Bytes
code unsupported_protocol = codes "unsupported_protocol"
code invalid_id = codes "invalid_id"
code unknown_operation = codes "unknown_operation"
code invalid_request = codes "invalid_request"
code invalid_argument_count = codes "invalid_argument_count"
code unregistered_extern = codes "unregistered_extern"
code unsupported_database = codes "unsupported_database"
code database_driver_not_linked = codes "database_driver_not_linked"
code database_configuration_missing = codes "database_configuration_missing"
code postgres_dsn_invalid = codes "postgres_dsn_invalid"
code postgres_verified_tls_required = codes "postgres_verified_tls_required"
code sqlite_path_not_allowed = codes "sqlite_path_not_allowed"
code database_open_failed = codes "database_open_failed"
code database_unavailable = codes "database_unavailable"
code too_many_database_handles = codes "too_many_database_handles"
code invalid_database_handle = codes "invalid_database_handle"
code transaction_already_open = codes "transaction_already_open"
code transaction_begin_failed = codes "transaction_begin_failed"
code no_active_transaction = codes "no_active_transaction"
code transaction_finish_failed = codes "transaction_finish_failed"
code too_many_parameters = codes "too_many_parameters"
code invalid_parameter = codes "invalid_parameter"
code parameter_too_long = codes "parameter_too_long"
code invalid_number = codes "invalid_number"
code unsupported_parameter_type = codes "unsupported_parameter_type"
code invalid_sql = codes "invalid_sql"
code database_execution_failed = codes "database_execution_failed"
code database_query_failed = codes "database_query_failed"
code database_columns_failed = codes "database_columns_failed"
code too_many_result_columns = codes "too_many_result_columns"
code result_row_limit_exceeded = codes "result_row_limit_exceeded"
code database_scan_failed = codes "database_scan_failed"
code result_cell_too_large = codes "result_cell_too_large"
code database_iteration_failed = codes "database_iteration_failed"
code invalid_method = codes "invalid_method"
code request_too_large = codes "request_too_large"
code invalid_url = codes "invalid_url"
code invalid_port = codes "invalid_port"
code provider_host_not_allowed = codes "provider_host_not_allowed"
code provider_tenant_not_configured = codes "provider_tenant_not_configured"
code literal_ip_denied = codes "literal_ip_denied"
code provider_secret_unavailable = codes "provider_secret_unavailable"
code planetscale_token_id_missing = codes "planetscale_token_id_missing"
code upstream_unavailable = codes "upstream_unavailable"
code invalid_upstream_status = codes "invalid_upstream_status"
code upstream_read_failed = codes "upstream_read_failed"
code upstream_body_too_large = codes "upstream_body_too_large"
code invalid_destination = codes "invalid_destination"
code dns_failed = codes "dns_failed"
code dial_failed = codes "dial_failed"
code no_public_destination = codes "no_public_destination"
code stripe_webhook_oversized = codes "stripe_webhook_oversized"
code stripe_webhook_secret_missing = codes "stripe_webhook_secret_missing"
code stripe_webhook_timestamp_invalid = codes "stripe_webhook_timestamp_invalid"
code stripe_webhook_signature_missing = codes "stripe_webhook_signature_missing"
code stripe_webhook_timestamp_expired = codes "stripe_webhook_timestamp_expired"
code stripe_webhook_signature_mismatch = codes "stripe_webhook_signature_mismatch"

abbrev pub Result {ℓ} : Type ℓ → Type ℓ
Result = Fallible Error
