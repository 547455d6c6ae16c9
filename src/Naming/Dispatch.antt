-- ===== src/Naming/Dispatch.antt =====
-- `_handle_stream` of naming.py: one request to one reply, whatever the handler raises.
use mdp2p.Prelude.{Option, some, List, [], ◌∷◌, if◌then◌else◌}
use mdp2p.Prelude.Int.{ℤ}
use mdp2p.Platform.{Platform}
use mdp2p.Py.Result.{ok, raise}
use mdp2p.Py.Value.{Value, Fields, null, obj, get_or, is_text}
use mdp2p.Naming.Messages.{
  malformed_request, unknown_type, internal_error, Response, error, is_oversized,
}
use mdp2p.Naming.Server.{
  NamingServer, Reply, refuse, handle_register, handle_resolve, handle_list,
  handle_register_reviewer, handle_list_reviewers,
}
use mdp2p.Naming.Reviews.{
  handle_post_assignment, handle_list_assignments, handle_attach_review, handle_get_attachments,
}

-- `send_json` raises on an oversized reply, and `except Exception` answers "internal error".
unfoldable pub send : Reply → Response × NamingServer
send (raise x, s) = (error internal_error, s)
send (ok r, s) = (if is_oversized r then error internal_error else r, s)

module _ (p : Platform) (now : ℤ) where
  -- The chain of `if msg_type == …`
  unfoldable pub dispatch : NamingServer → Fields → Value → Reply
  dispatch s msg type =
      if is_text type "register"
      then handle_register p now s msg
      else if is_text type "resolve"
      then handle_resolve s msg
      else if is_text type "list"
      then handle_list s msg
      else if is_text type "register_reviewer"
      then handle_register_reviewer p now s msg
      else if is_text type "list_reviewers"
      then handle_list_reviewers s msg
      else if is_text type "post_assignment"
      then handle_post_assignment p now s msg
      else if is_text type "list_assignments"
      then handle_list_assignments s msg
      else if is_text type "attach_review"
      then handle_attach_review p now s msg
      else if is_text type "get_attachments"
      then handle_get_attachments s msg
      else refuse unknown_type s

  -- The request is none if the stream ended, timed out or was too long.
  unfoldable pub handle_stream : NamingServer → Option Value → Response × NamingServer
  handle_stream s (some (obj msg)) = send (dispatch s msg (get_or msg "type" null))
  handle_stream s _ = (error malformed_request, s)

-- Requests in the order in which their handlers run. A handler has no `await` between its first read
-- and its last write, so two of them do not interleave. Each request comes with its own clock.
unfoldable pub serve : Platform → NamingServer → List (ℤ × Option Value) → NamingServer
serve p s [] = s
serve p s ((now, request) ∷ rest) = serve p (handle_stream p now s request).1 rest
