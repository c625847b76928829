-- ===== src/Agent/Tools.antt =====
-- src/agent/tools.py: the registry's call of a tool, with its audit record. A tool's argument model
-- and handler are parameters of the tool; `json.dumps` and the printed form of an exception are
-- parameters, a record `Printing`. The argument `fails` says whether the audit's commit raises, as it
-- does after an error of the database in the handler, which nothing rolls back.
pub mod Handlers
pub mod Audit
mod Tests
use Prim.Native.String.{◌++◌ as text_append}
use kryvaracode.Common.{
  ℕ, zero, suc, String, Bool, true, false, ◌||◌, ◌&&◌, leb, ◌+◌, Option, none, some, List, [], ◌∷◌,
  map, ◌==◌, if◌then◌else◌,
}
use kryvaracode.Common.Texts.{lower}
use kryvaracode.Coordination.Topics.{codes, same}
use kryvaracode.Core.Exceptions.{
  Result, Result.ok, Result.raised, Exception, app, new_error, raise_app, ErrorClass.not_found,
  ErrorClass.validation_failed,
}
use kryvaracode.Db.Table.{Row}
use kryvaracode.Db.Models.{AuditLog, Database}
use kryvaracode.Db.Records.{create_audit_entry}

-- The values of a tool's arguments and answers.
mutual
  pub data Value : Type 0 where
    null : Value
    number : ℕ → Value
    text : String → Value
    list : Values → Value
    object : Fields → Value

  pub data Values : Type 0 where
    nil : Values
    cons : Value → Values → Values

  pub data Fields : Type 0 where
    end : Fields
    field : String → Value → Fields → Fields

-- `SENSITIVE_KEYS` as both functions read it when they are called: the second assignment.
abbrev pub sensitive_keys : List String
sensitive_keys = "password" ∷ "token" ∷ "secret" ∷ "api_key" ∷ "authorization" ∷ []

abbrev pub among : List ℕ → List String → Bool
among k [] = false
among k (s ∷ ss) = same k (codes s) || among k ss

-- `k.lower() in SENSITIVE_KEYS`
unfoldable pub is_sensitive : String → Bool
unfolding same
is_sensitive k = among (map lower (codes k)) sensitive_keys

-- `_sanitize_arguments`: what is written to the audit log.
unfoldable pub sanitize_arguments : Fields → Fields
sanitize_arguments end = end
sanitize_arguments (field k v rest) =
    field k (if is_sensitive k then text "***" else v) (sanitize_arguments rest)

-- `_sanitize_args`, which nothing calls.
unfoldable mutual
  pub sanitize_args : Fields → Fields
  sanitize_args end = end
  sanitize_args (field k v rest) =
      let inner = sanitize_value v in
      field k (if is_sensitive k then text "***" else inner) (sanitize_args rest)

  pub sanitize_value : Value → Value
  sanitize_value null = null
  sanitize_value (number n) = number n
  sanitize_value (text s) = text s
  sanitize_value (list vs) = list (sanitize_items vs)
  sanitize_value (object fs) = object (sanitize_args fs)

  -- The items of a list: objects are sanitized, other items stay.
  pub sanitize_items : Values → Values
  sanitize_items nil = nil
  sanitize_items (cons v vs) = cons (sanitize_item v) (sanitize_items vs)

  pub sanitize_item : Value → Value
  sanitize_item (object fs) = object (sanitize_args fs)
  sanitize_item null = null
  sanitize_item (number n) = number n
  sanitize_item (text s) = text s
  sanitize_item (list vs) = list vs

-- A handler with its parsed arguments: the database, and the number of the user, if there is one.
abbrev pub Handler : Type 0
Handler = Option ℕ → Database → Database × Result Value

-- `tool.parameters(**arguments)` and the handler: a message of the validation, or the handler to run.
pub data Parsed : Type 0 where
  invalid : String → Parsed
  valid : Handler → Parsed

pub record Tool : Type 0 where
  pub name : String
  pub description : String
  pub parse : Fields → Parsed
  pub requires_user : Bool

-- `_TOOLS_BY_NAME`: a later tool of a name takes the place of an earlier.
unfoldable pub get_tool : String → List Tool → Option Tool
get_tool name [] = none
get_tool name (tool ∷ tools) =
    let later = get_tool name tools in
    elim later [ some t ↦ some t | none ↦ (if tool.name == name then some tool else none) ]

-- `s[:n]`
abbrev pub clip : ℕ → String → String
clip zero s = ""
clip (suc n) String.[] = ""
clip (suc n) (String.◌∷◌ ch s) = String.◌∷◌ ch (clip n s)

pub record Printing : Type 0 where
  pub dumps : Fields → Option String
  pub describe : Exception → String

abbrev pub clip_option : ℕ → Option String → Option String
clip_option n none = none
clip_option n (some s) = some (clip n s)

-- `error[:2000] if error else None`
abbrev pub clip_error : Option String → Option String
clip_error none = none
clip_error (some s) = if s == "" then none else some (clip 2000 s)

-- What every call of one invocation shares: the printing, whether the audit fails, the key of its row,
-- the milliseconds, the name, the arguments and the user.
pub record Invocation : Type 0 where
  pub fails : Bool
  pub key : ℕ
  pub duration_ms : ℕ
  pub name : String
  pub arguments : Fields
  pub user : Option ℕ

module _ (p : Printing) where
  unfoldable pub audit_entry : Invocation → Bool → Option String → AuditLog
  audit_entry i success error = record {
    tool_name = i.name;
    user_id = i.user;
    arguments = clip_option 4000 (p.dumps (sanitize_arguments i.arguments));
    success = success;
    error = clip_error error;
    duration_ms = some i.duration_ms;
  }

  unfoldable pub write_audit : Invocation → Bool → Option String → Database → Database
  unfolding audit_entry create_audit_entry
  write_audit i success error db =
      if i.fails then db else (create_audit_entry i.key (audit_entry i success error) db).0

  -- After the handler: the audit record, then the answer or the exception again.
  unfoldable pub finish_call : Invocation → Database × Result Value → Database × Result Value
  unfolding write_audit
  finish_call i (db, ok v) = (write_audit i true none db, ok v)
  finish_call i (db, raised e) = (write_audit i false (some (p.describe e)) db, raised e)

  -- After the validation.
  unfoldable pub call_parsed : Invocation → Parsed → Database → Database × Result Value
  unfolding write_audit finish_call
  call_parsed i (invalid message) db = (
    write_audit i false (some (text_append "ValidationError: " message)) db,
    raised (
        app (
          new_error validation_failed (some "Tool arguments failed validation") none
            (("errors", ("errors", message) ∷ []) ∷ []))),
  )
  call_parsed i (valid handler) db = finish_call i (handler i.user db)

  unfoldable pub invoke_tool : List Tool → Invocation → Database → Database × Result Value
  unfolding call_parsed
  invoke_tool tools i db = elim (get_tool i.name tools) [
    | none ↦
        (db, raised (raise_app not_found (text_append "Tool '" (text_append i.name "' not found"))))
    | some tool ↦ call_parsed i (tool.parse i.arguments) db
  ]
