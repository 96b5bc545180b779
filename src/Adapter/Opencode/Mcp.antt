-- ===== src/Adapter/Opencode/Mcp.antt =====
-- The translation of an MCP configuration for opencode: translateMCPConfigForOpenCode and
-- buildOpenCodeMCPConfigContent of internal/adapter/opencode.go. encoding/json is an argument. A map
-- is a list of fields; where the code writes a key twice the later value stands.
pub mod Entries
use aiclibridge.Prelude.{
  ◌≡◌, ◌≢◌, refl, Text, lit, List, [], ◌∷◌, Option, none, some, if◌then◌else◌, Bool, true, false,
  is_empty, text_eq, text_eq_iff, text_eq_refl, Bool-cases, Option-cases, inl, inr, arith, All,
}
use aiclibridge.Protocol.{
  Json, Items, Fields, string, array, object, nil, cons, end, field, lookup_field,
}

-- The payload: mcpServers, and mcp with its entries still encoded.
pub record McpPayload : Type 0 where
  pub mcp_servers : List (Text × Fields)
  pub mcp : List (Text × Text)

-- encoding/json; `none` is an error. An entry of mcp that is null is the nil map, here `end`.
pub record McpDecoder : Type 0 where
  pub payload : Text → Option McpPayload
  pub entry : Text → Option Fields
  pub marshal : Fields → Option Text

-- out[name] = entry
unfoldable pub set_entry : Text → Fields → List (Text × Fields) → List (Text × Fields)
set_entry name entry [] = (name, entry) ∷ []
set_entry name entry ((n, e) ∷ out) =
    let rest = set_entry name entry out in
    if text_eq n name then (name, entry) ∷ out else (n, e) ∷ rest

-- The entries of mcp, passed through; `none` is the error of the first that is no object.
unfoldable pub native_entries :
    McpDecoder → List (Text × Text) → List (Text × Fields) → Option (List (Text × Fields))
unfolding set_entry
native_entries d [] out = some out
native_entries d ((name, raw) ∷ rest) out = elim (d.entry raw) [
  | none ↦ none
  | some entry ↦ native_entries d rest (set_entry name entry out)
]

abbrev string_of : Option Json → Text
string_of (some (string s)) = s
string_of _ = []

-- entry[key] = value, where the server has the field `from`.
abbrev copied : Text → Option Json → Fields
copied key none = end
copied key (some value) = field key value end

abbrev command_of : Text → Option Json → Json
command_of cmd (some (array args)) = array (cons (string cmd) args)
command_of cmd _ = array (cons (string cmd) nil)

unfoldable pub remote_entry : Text → Fields → Fields
unfolding lookup_field
remote_entry url server =
    field (lit "type") (string (lit "remote")) (
      field (lit "url") (string url) (copied (lit "headers") (lookup_field (lit "headers") server)))

unfoldable pub local_entry : Fields → Fields
unfolding lookup_field
local_entry server = field (lit "type") (string (lit "local")) (
    field (lit "command")
      (command_of (string_of (lookup_field (lit "command") server))
        (lookup_field (lit "args") server))
      (copied (lit "environment") (lookup_field (lit "env") server)))

-- A server with a url is remote, any other is local.
unfoldable pub translate_server : Fields → Fields
unfolding remote_entry local_entry lookup_field
translate_server server =
    let url = string_of (lookup_field (lit "url") server) in
    if is_empty url then local_entry server else remote_entry url server

unfoldable pub translate_servers :
    List (Text × Fields) → List (Text × Fields) → List (Text × Fields)
unfolding set_entry translate_server
translate_servers [] out = out
translate_servers ((name, server) ∷ rest) out =
    translate_servers rest (set_entry name (translate_server server) out)

unfoldable pub translate_payload : McpDecoder → McpPayload → Option (List (Text × Fields))
unfolding native_entries translate_servers
translate_payload d p = elim (native_entries d p.mcp []) [
  | none ↦ none
  | some out ↦ some (translate_servers p.mcp_servers out)
]

-- `none` is the error; nil and the empty map are [].
unfoldable pub translate_mcp_config : McpDecoder → Text → Option (List (Text × Fields))
unfolding translate_payload
translate_mcp_config d raw =
    if is_empty raw
    then some []
    else elim (d.payload raw) [ none ↦ none | some p ↦ translate_payload d p ]

unfoldable pub fields_of : List (Text × Fields) → Fields
fields_of [] = end
fields_of ((name, entry) ∷ rest) = field name (object entry) (fields_of rest)

-- buildOpenCodeMCPConfigContent: the content, and its second result, which is true on an error of
-- the translation.
unfoldable pub build_mcp_config_content : McpDecoder → Text → Text × Bool
unfolding translate_mcp_config fields_of
build_mcp_config_content d raw = elim (translate_mcp_config d raw) [
  | none ↦ ([], true)
  | some [] ↦ ([], false)
  | some (entry ∷ out) ↦
      elim (d.marshal (field (lit "mcp") (object (fields_of (entry ∷ out))) end)) [
        | none ↦ ([], false)
        | some text ↦ (text, true)
      ]
]
