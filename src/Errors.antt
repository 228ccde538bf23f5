-- ===== src/Errors.antt =====
-- The exceptions that the modelled services raise: app/common/exceptions.py, and the two of the
-- database layer that end a request with a 500.
pub data AppError : Type 0 where
  post_not_found comment_not_found user_not_found : AppError
  concurrent_update unauthorized forbidden invalid_credentials : AppError
  invalid_request too_many_requests internal_server_error self_dm : AppError
  -- SQLAlchemy's MultipleResultsFound and IntegrityError
  multiple_results integrity_error : AppError
