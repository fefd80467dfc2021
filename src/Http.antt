-- ===== src/Http.antt =====
-- The errors that the handlers of src/libarr/api raise: an `HTTPException` by its status code.
use libarr.Prelude.{Text, Result}

-- 400, 401, 403, 404, 409, with the detail; and 500, where an exception leaves the handler.
pub data HttpError : Type 0 where
  bad_request unauthorized forbidden not_found conflict server_error : Text → HttpError

abbrev pub Reply : Type 0 → Type 0
Reply A = Result HttpError A
