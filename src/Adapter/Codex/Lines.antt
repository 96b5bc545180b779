-- ===== src/Adapter/Codex/Lines.antt =====
-- The lines of the codex app-server (internal/adapter/codex.go): handleLine, handleResponse,
-- handleServerRequest, codexPermissionsApprovalResponse and the reader's loop.
use aiclibridge.Prelude.{
  Text, lit, List, [], ◌∷◌, ◌++◌, Option, none, some, if◌then◌else◌, text_eq, or_nil, ◌||◌,
}
use aiclibridge.Prelude.Int.{ℤ, negsuc, eq_ℤ}
use aiclibridge.Prelude.Strconv.{format_int}
use aiclibridge.Protocol.{Fields, end, field, string, object, null}
use aiclibridge.Adapter.Scan.{scan_lines}
use aiclibridge.Adapter.Codex.{
  RpcResult, CodexClient, Numbers, responded, refused, settled, emit, set_turn_error,
}
use aiclibridge.Adapter.Codex.Notifications.{handle_notification}

-- The keys that the client reads of a line, as raw JSON, and a JSON-RPC error.
pub record RawMessage : Type 0 where
  pub id : Option Text
  pub result : Option Text
  pub error : Option Text
  pub method : Option Text
  pub params : Option Text

pub record RpcError : Type 0 where
  pub code : ℤ
  pub message : Text

-- encoding/json. What does not decode leaves the zero value, except a line and the id of a
-- response, whose error is `none`; `id` is that of a request.
pub record CodexDecoder : Type 0 where
  pub line : Text → Option RawMessage
  pub response_id : Text → Option ℤ
  pub id : Text → ℤ
  pub method : Text → Text
  pub params : Text → Fields
  pub permissions : Text → Fields
  pub rpc_error : Text → RpcError
  pub numbers : Numbers

-- The requested permissions that are granted.
unfoldable pub granted : Fields → Fields
granted end = end
granted (field key null rest) = granted rest
granted (field key value rest) =
    let others = granted rest in
    if text_eq key (lit "network") || text_eq key (lit "fileSystem")
    then field key value others
    else others

unfoldable pub codex_permissions_approval_response : CodexDecoder → Text → Fields
unfolding granted
codex_permissions_approval_response d params =
    field (lit "permissions") (object (granted (d.permissions params)))
      (field (lit "scope") (string (lit "turn")) end)

abbrev pub accepted : Fields
accepted = field (lit "decision") (string (lit "accept")) end

abbrev pub unsupported : Text → Text
unsupported method = lit "unsupported codex app-server request: " ++ method

unfoldable pub handle_server_request : CodexDecoder → RawMessage → CodexClient → CodexClient
unfolding emit set_turn_error codex_permissions_approval_response
handle_server_request d m c =
    let id = d.id (or_nil m.id) in
    let method = d.method (or_nil m.method) in
    if text_eq method (lit "item/commandExecution/requestApproval")
      || text_eq method (lit "execCommandApproval")
    then emit (responded id accepted) c
    else if text_eq method (lit "item/fileChange/requestApproval")
        || text_eq method (lit "applyPatchApproval")
    then emit (responded id accepted) c
    else if text_eq method (lit "item/permissions/requestApproval")
    then emit (responded id (codex_permissions_approval_response d (or_nil m.params))) c
    else if text_eq method (lit "mcpServer/elicitation/request")
    then emit
        (responded id (
          field (lit "action") (string (lit "accept"))
            (field (lit "content") null (field (lit "_meta") null end))))
        c
    else emit (refused id (negsuc 32600) (unsupported method))
        (set_turn_error (unsupported method) c)

-- The pending map: the method of an id, and the map without it.
unfoldable pub pending_method : ℤ → List (ℤ × Text) → Option Text
pending_method id [] = none
pending_method id ((i, method) ∷ pending) =
    if eq_ℤ i id then some method else pending_method id pending

unfoldable pub forget : ℤ → List (ℤ × Text) → List (ℤ × Text)
forget id [] = []
forget id ((i, method) ∷ pending) =
    let rest = forget id pending in if eq_ℤ i id then rest else (i, method) ∷ rest

unfoldable pub rpc_result : CodexDecoder → Text → RawMessage → RpcResult
unfolding format_int
rpc_result d method m = elim m.error [
  | none ↦ record { result = or_nil m.result; err = none }
  | some e ↦ record {
    result = [];
    err = some (
        method
        ++ lit ": "
        ++ (d.rpc_error e).message
        ++ lit " (code="
        ++ format_int (d.rpc_error e).code
        ++ lit ")");
  }
]

unfoldable pub settle : CodexDecoder → ℤ → Text → RawMessage → CodexClient → CodexClient
unfolding emit forget rpc_result
settle d id method m c =
    emit (settled id (rpc_result d method m)) (record c { pending = forget id c.pending })

unfoldable pub handle_response : CodexDecoder → RawMessage → CodexClient → CodexClient
unfolding settle pending_method
handle_response d m c = elim (d.response_id (or_nil m.id)) [
  | none ↦ c
  | some id ↦ elim (pending_method id c.pending) [ none ↦ c | some method ↦ settle d id method m c ]
]

unfoldable pub hear_notification : CodexDecoder → RawMessage → CodexClient → CodexClient
unfolding handle_notification
hear_notification d m c = elim m.method [
  | none ↦ c
  | some method ↦
      handle_notification d.numbers (d.method method)
        (elim m.params [ none ↦ end | some p ↦ d.params p ]) c
]

-- A line with an id: a response, a request of the server, or else nothing, since without a method
-- it is no notification either.
unfoldable pub answer : CodexDecoder → RawMessage → CodexClient → CodexClient
unfolding handle_response handle_server_request
answer d m c = elim m.result [
  | some r ↦ handle_response d m c
  | none ↦ elim m.error [
    | some e ↦ handle_response d m c
    | none ↦ elim m.method [ none ↦ c | some method ↦ handle_server_request d m c ]
  ]
]

unfoldable pub handle_raw : CodexDecoder → RawMessage → CodexClient → CodexClient
unfolding answer hear_notification
handle_raw d m c = elim m.id [ none ↦ hear_notification d m c | some id ↦ answer d m c ]

-- handleLine for every line of stdout, in order.
unfoldable pub handle_lines : CodexDecoder → List Text → CodexClient → CodexClient
unfolding scan_lines handle_raw
handle_lines d lines c = scan_lines d.line (handle_raw d) lines c
