-- ===== src/Canonical.antt =====
-- safa-core/src/canonical.rs: the checked action and its result, with the JSON form that serde derives
-- from the attributes.
use ama.Prelude.{ℕ, ℤ, pos, String, Bool, false, Option, List}
use ama.Errors.{Json, Fields}
use ama.Newtypes.{BoundedBytes, SafeArg, IntentId, HttpMethod}
use ama.Newtypes.Url.{AllowlistedUrl}
use ama.Newtypes.Path.{WorkspacePath}

pub data CanonicalAction : Type 0 where
  file_write : WorkspacePath → BoundedBytes → CanonicalAction
  file_read : WorkspacePath → CanonicalAction
  shell_exec : IntentId → List SafeArg → CanonicalAction
  http_request : HttpMethod → AllowlistedUrl → Option BoundedBytes → CanonicalAction

pub data ActionResult : Type 0 where
  file_written : (bytes_written : ℕ) → ActionResult
  file_content :
      (content : String) (bytes_returned total_bytes : ℕ) (truncated : Bool) → ActionResult
  shell_output : (stdout stderr : String) (exit_code : ℤ) (truncated : Bool) → ActionResult
  http_response : (status_code : ℕ) (body : String) (truncated : Bool) → ActionResult

unfoldable pub is_truncated : ActionResult → Bool
is_truncated (file_written bytes_written) = false
is_truncated (file_content content bytes_returned total_bytes truncated) = truncated
is_truncated (shell_output stdout stderr exit_code truncated) = truncated
is_truncated (http_response status_code body truncated) = truncated

-- `serde_json::to_value`
unfoldable pub to_value : ActionResult → Json
to_value (file_written bytes_written) = Json.object (
    Fields.field "type" (Json.string "file_write")
      (Fields.field "bytes_written" (Json.number (pos bytes_written)) Fields.end))
to_value (file_content content bytes_returned total_bytes truncated) = Json.object (
    Fields.field "type" (Json.string "file_read") (
      Fields.field "content" (Json.string content) (
        Fields.field "bytes_returned" (Json.number (pos bytes_returned)) (
          Fields.field "total_bytes" (Json.number (pos total_bytes))
            (Fields.field "truncated" (Json.bool truncated) Fields.end)))))
to_value (shell_output stdout stderr exit_code truncated) = Json.object (
    Fields.field "type" (Json.string "shell_exec") (
      Fields.field "stdout" (Json.string stdout) (
        Fields.field "stderr" (Json.string stderr) (
          Fields.field "exit_code" (Json.number exit_code)
            (Fields.field "truncated" (Json.bool truncated) Fields.end)))))
to_value (http_response status_code body truncated) = Json.object (
    Fields.field "type" (Json.string "http_response") (
      Fields.field "status_code" (Json.number (pos status_code)) (
        Fields.field "body" (Json.string body)
          (Fields.field "truncated" (Json.bool truncated) Fields.end))))
