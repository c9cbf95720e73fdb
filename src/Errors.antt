-- ===== src/Errors.antt =====
-- src/utils/errors.ts: from an unknown thrown value to the error that a tool reports.
-- `render` is the text that `JSON.stringify`, or `String` where that gives none, makes of a value
-- that is no text; `to_text` is `String(err)`.
pub mod Coded
pub mod Status
mod Tests
use mathlib.Core.Option
use b2_mcp.Base.{
  Bool, List, Option, String, [], false, first_some, get_or, if◌then◌else◌, is_some, ltb, none, not,
  or_else, some, str_eq, true, ℕ, ◌∷◌,
}
use b2_mcp.Value.{
  Store, Value, as_num, as_str, bool, coalesce, is_object, nonempty_str, null, num, prop, ref, str,
  undefined,
}
use b2_mcp.CauseChain.{find_in_cause_chain, matching}
use b2_mcp.CauseChain.Interruption.{is_abort_error, is_timeout_error}

-- The code's type says that `status` is a number; in one branch it passes on what it was given.
pub record B2ApiError : Type 0 where
  pub status : Value
  pub code : String
  pub message : String
  pub request_id : Option String
  pub extended_request_id : Option String

abbrev pub an_unknown_error : String
an_unknown_error = "An unknown error occurred"

abbrev pub simple : Value → String → String → B2ApiError
simple status code message = record {
  status = status;
  code = code;
  message = message;
  request_id = none;
  extended_request_id = none;
}

abbrev pub truthy : Value → Bool
truthy undefined = false
truthy null = false
truthy (bool b) = b
truthy (num n) = ltb 0 n
truthy (str s) = not (str_eq s "")
truthy (ref a) = true

module _ (h : Store) where
  unfoldable pub header_request_id : Value → Option String
  header_request_id headers =
      if is_object headers
      then as_str (
          coalesce (prop h headers "x-bz-request-id") (
            coalesce (prop h headers "x-amz-request-id")
              (coalesce (prop h headers "x-amz-id-2") (prop h headers "x-request-id"))))
      else none

  abbrev pub string_or_fallback : Value → String → String
  string_or_fallback v fallback = get_or (nonempty_str v) fallback

  abbrev pub number_or_fallback : Value → ℕ → ℕ
  number_or_fallback v fallback = get_or (as_num v) fallback

  unfoldable pub aws_error_code : Value → String
  aws_error_code e =
      get_or (or_else (nonempty_str (prop h e "Code")) (nonempty_str (prop h e "name")))
        "unknown_error"

  -- The properties of `resp.data`, or of the empty object.
  abbrev pub legacy_response_data : Value → String → Value
  legacy_response_data resp k =
      if is_object (prop h resp "data") then prop h (prop h resp "data") k else undefined

module _ (render : Store → Value → String) (to_text : Value → String) (h : Store) where
  abbrev pub message_or_fallback : Value → String → String
  message_or_fallback (str s) fallback = s
  message_or_fallback undefined fallback = fallback
  message_or_fallback null fallback = fallback
  message_or_fallback v fallback = render h v

  abbrev pub typed_error : Value → ℕ → String → B2ApiError
  typed_error e s c = record {
    status = num s;
    code = c;
    message = message_or_fallback (prop h e "message") an_unknown_error;
    request_id = as_str (prop h e "requestId");
    extended_request_id = none;
  }

  abbrev pub both : Value → Option ℕ → Option String → Option B2ApiError
  both e (some s) (some c) = some (typed_error e s c)
  both e _ _ = none

  unfoldable pub coded_error_from_value : Value → Option B2ApiError
  coded_error_from_value v = both v (as_num (prop h v "status")) (as_str (prop h v "code"))

  abbrev pub aws_error : Value → Value → ℕ → B2ApiError
  aws_error e meta s = record {
    status = num s;
    code = aws_error_code h e;
    message = message_or_fallback (prop h e "message") an_unknown_error;
    request_id = as_str (prop h meta "requestId");
    extended_request_id = as_str (prop h meta "extendedRequestId");
  }

  abbrev pub legacy_error : Value → ℕ → B2ApiError
  legacy_error resp s = record {
    status = num s;
    code = string_or_fallback h (legacy_response_data h resp "code") "unknown_error";
    message = message_or_fallback (legacy_response_data h resp "message") an_unknown_error;
    request_id = header_request_id h (prop h resp "headers");
    extended_request_id = none;
  }

  -- `e.$metadata` and `e.response`, where they are objects.
  abbrev pub object_at : Value → String → Option Value
  object_at e k = if is_object (prop h e k) then some (prop h e k) else none

  abbrev pub definitive_aws : Value → Option Value → Option B2ApiError
  definitive_aws e none = none
  definitive_aws e (some meta) =
      Option.map (aws_error e meta) (as_num (prop h meta "httpStatusCode"))

  abbrev pub definitive_legacy : Option Value → Option B2ApiError
  definitive_legacy none = none
  definitive_legacy (some resp) = Option.map (legacy_error resp) (as_num (prop h resp "status"))

  pub interruption : Value → Option B2ApiError
  interruption e =
      if is_some (find_in_cause_chain h (matching (is_timeout_error h)) e)
      then some (
          simple (num 504) "request_timeout"
            (message_or_fallback (prop h e "message") "The request timed out"))
      else if is_some (find_in_cause_chain h (matching (is_abort_error h)) e)
      then some (
          simple (num 499) "request_aborted"
            (message_or_fallback (prop h e "message") "The request was aborted"))
      else none

  abbrev pub incomplete_aws : Value → Option Value → Option B2ApiError
  incomplete_aws e none = none
  incomplete_aws e (some meta) = some (aws_error e meta 500)

  abbrev pub incomplete_legacy : Option Value → Option B2ApiError
  incomplete_legacy none = none
  incomplete_legacy (some resp) =
      some (legacy_error resp (number_or_fallback h (prop h resp "status") 500))

  abbrev pub already_parsed : Value → Option String → Option String → Option B2ApiError
  already_parsed e (some c) (some m) = some (record {
    status = coalesce (prop h e "status") (num 500);
    code = c;
    message = m;
    request_id = as_str (prop h e "requestId");
    extended_request_id = none;
  })
  already_parsed e _ _ = none

  abbrev pub with_message : Value → Option B2ApiError
  with_message e =
      if truthy (prop h e "message")
      then some (
          simple (num 500) "internal_error"
            (message_or_fallback (prop h e "message") an_unknown_error))
      else none

  -- The returns of the function for an object, in their order.
  abbrev pub object_returns : Value → List (Option B2ApiError)
  object_returns e =
      let meta = object_at e "$metadata" in
      let resp = object_at e "response" in
      (coded_error_from_value e
        ∷ definitive_aws e meta
        ∷ definitive_legacy resp
        ∷ find_in_cause_chain h coded_error_from_value e
        ∷ interruption e
        ∷ incomplete_aws e meta
        ∷ incomplete_legacy resp
        ∷ already_parsed e (as_str (prop h e "code")) (as_str (prop h e "message"))
        ∷ with_message e
        ∷ [])

  pub object_error : Value → Option B2ApiError
  object_error e = first_some (object_returns e)

  unfoldable pub parse_b2_error : Value → B2ApiError
  parse_b2_error err =
      get_or (if is_object err then object_error err else none)
        (simple (num 500) "internal_error" (to_text err))
