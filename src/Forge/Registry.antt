-- ===== src/Forge/Registry.antt =====
-- src/agent/forge/registry.py: the registry of tools. The parameters of a tool, a JSON schema, are carried as a
-- text and read by nothing here. The registry is one object for the process; its methods run under its
-- lock, so each is one function.
use kryvaracode.Common.{
  ℕ, ◌≡◌, String, Bool, ◌==◌, Option, none, some, List, [], arith, eq_iff, if◌then◌else◌, is_some,
  Option-cases, inl, inr,
}
use kryvaracode.Common.Dict
use kryvaracode.Common.Dict.{
  Dict, lookup, insert, without, member, IsDistinct, lookup-insert, lookup-without,
  insert-IsDistinct, without-IsDistinct,
}

pub record ToolDefinition : Type 0 where
  pub name : String
  pub description : String
  pub parameters : String
  pub implementation_path : String
  pub function_name : String
  pub version : String
  pub created_at : ℕ
  pub is_verified : Bool

pub record ToolRegistry : Type 0 where
  pub tools : Dict ToolDefinition

-- `_initialize`
unfoldable pub new_registry : ToolRegistry
new_registry = record { tools = [] }

unfoldable pub register_tool : ToolDefinition → ToolRegistry → ToolRegistry
register_tool definition r = record { tools = insert definition.name definition r.tools }

-- A missing tool is reported in the log and nothing else.
unfoldable pub unregister_tool : String → ToolRegistry → ToolRegistry
unregister_tool tool_name r =
    if is_some (lookup tool_name r.tools) then record { tools = without tool_name r.tools } else r

unfoldable pub get_tool : String → ToolRegistry → Option ToolDefinition
get_tool tool_name r = lookup tool_name r.tools

unfoldable pub list_tools : ToolRegistry → List String
list_tools r = Dict.keys r.tools

-- A copy, which later changes of the registry do not reach.
unfoldable pub get_all_definitions : ToolRegistry → Dict ToolDefinition
get_all_definitions r = r.tools

get_tool-register_tool :
    (definition : ToolDefinition) (k : String) (r : ToolRegistry)
    → get_tool k (register_tool definition r)
      ≡ (if definition.name == k then some definition else get_tool k r)
unfolding get_tool register_tool
get_tool-register_tool definition k r = lookup-insert definition.name k definition r.tools

-- Whether the tool was known or not, it is unknown afterwards, and no other tool changes.
get_tool-unregister_tool :
    (name k : String) (r : ToolRegistry)
    → get_tool k (unregister_tool name r) ≡ (if name == k then none else get_tool k r)
unfolding get_tool unregister_tool
get_tool-unregister_tool name k r = elim (Option-cases (lookup name r.tools)) [
  | inl e ↦ rw e (ground (arith, e, eq_iff name k))
  | inr (t, e) ↦ rw e (lookup-without name k r.tools)
]

-- No operation lists a name twice.
register_tool-IsDistinct :
    (definition : ToolDefinition) (r : ToolRegistry)
    → IsDistinct r.tools
    → IsDistinct (register_tool definition r).tools
unfolding register_tool
register_tool-IsDistinct definition r h = insert-IsDistinct definition.name definition r.tools h

unregister_tool-IsDistinct :
    (name : String) (r : ToolRegistry)
    → IsDistinct r.tools
    → IsDistinct (unregister_tool name r).tools
unfolding unregister_tool
unregister_tool-IsDistinct name r h = elim (Option-cases (lookup name r.tools)) [
  | inl e ↦ rw e h
  | inr (t, e) ↦ rw e (without-IsDistinct name r.tools h)
]
