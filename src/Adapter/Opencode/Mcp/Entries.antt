-- ===== src/Adapter/Opencode/Mcp/Entries.antt =====
-- What the translation of an MCP configuration holds.
use aiclibridge.Prelude.{
  ◌≡◌, refl, ap, sym, ◌∙◌, Text, List, [], ◌∷◌, ◌++◌, Option, none, some, if◌then◌else◌, false,
  text_eq, text_eq_iff, text_eq_refl, Bool-cases, Option-cases, inl, inr, arith, All,
}
use aiclibridge.Protocol.{Fields}
use aiclibridge.Adapter.Opencode.Mcp.{
  McpDecoder, McpPayload, set_entry, native_entries, translate_server, translate_servers,
  translate_payload,
}

unfoldable pub entry_at : Text → List (Text × Fields) → Option Fields
entry_at name [] = none
entry_at name ((n, e) ∷ out) = if text_eq n name then some e else entry_at name out

entry_at-set_entry :
    (name : Text) (entry : Fields) (out : List (Text × Fields))
    → entry_at name (set_entry name entry out) ≡ some entry
unfolding entry_at set_entry
entry_at-set_entry name entry [] = rw (text_eq_refl name) refl
entry_at-set_entry name entry ((n, e) ∷ out) = elim (Bool-cases (text_eq n name)) [
  | inl q ↦ rw (q, text_eq_refl name) refl
  | inr q ↦ rw (q, q) (entry_at-set_entry name entry out)
]

entry_at-set_entry_other :
    (name other : Text) (entry : Fields) (out : List (Text × Fields))
    → text_eq other name ≡ false
    → entry_at name (set_entry other entry out) ≡ entry_at name out
unfolding entry_at set_entry
entry_at-set_entry_other name other entry [] h = rw h refl
entry_at-set_entry_other name other entry ((n, e) ∷ out) h = elim (Bool-cases (text_eq n other)) [
  | inl q ↦
      let apart : text_eq n name ≡ false = ground (arith, text_eq_iff n other) in
      rw (q, h, apart) refl
  | inr q ↦ elim (Bool-cases (text_eq n name)) [
    | inl r ↦ rw (q, r) refl
    | inr r ↦ rw (q, r) (entry_at-set_entry_other name other entry out h)
  ]
]

-- No server of a list has the name.
abbrev pub Unnamed : Text → List (Text × Fields) → Type 0
Unnamed name servers = All (λ (s : Text × Fields). text_eq s.0 name ≡ false) servers

entry_at-translate_servers :
    (name : Text) (servers out : List (Text × Fields))
    → Unnamed name servers
    → entry_at name (translate_servers servers out) ≡ entry_at name out
unfolding translate_servers
entry_at-translate_servers name [] out h = refl
entry_at-translate_servers name ((n, server) ∷ rest) out (p, h) =
    entry_at-translate_servers name rest _ h
    ∙ entry_at-set_entry_other name n (translate_server server) out p

entry_at-translated :
    (name : Text) (server : Fields) (before after out : List (Text × Fields))
    → Unnamed name after
    → entry_at name (translate_servers (before ++ (name, server) ∷ after) out)
      ≡ some (translate_server server)
unfolding translate_servers
entry_at-translated name server [] after out h =
    entry_at-translate_servers name after _ h
    ∙ entry_at-set_entry name (translate_server server) out
entry_at-translated name server ((n, s) ∷ before) after out h =
    entry_at-translated name server before after _ h

-- When a configuration translates for opencode, every server of mcpServers stands in the result
-- under its name, as its translation, also where mcp has an entry of that name; it is assumed that
-- no later server has the name.
pub translate_payload-server :
    (d : McpDecoder) (p : McpPayload) (name : Text) (server : Fields)
    (before after out : List (Text × Fields))
    → p.mcp_servers ≡ before ++ (name, server) ∷ after
    → Unnamed name after
    → translate_payload d p ≡ some out
    → entry_at name out ≡ some (translate_server server)
unfolding translate_payload
translate_payload-server d p name server before after out e h t =
    elim (Option-cases (native_entries d p.mcp [])) [
      | inl q ↦ ground (arith, q, t)
      | inr (native, q) ↦
          let all_of : translate_servers p.mcp_servers native ≡ out = ground (arith, q, t) in
          sym (ap (entry_at name) (sym (ap (λ s. translate_servers s native) e) ∙ all_of))
          ∙ entry_at-translated name server before after native h
    ]
