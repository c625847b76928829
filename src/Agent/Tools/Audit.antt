-- ===== src/Agent/Tools/Audit.antt =====
-- src/agent/tools.py: every call of a registered tool leaves one audit record.
use Prim.Native.String.{◌++◌ as text_append}
use kryvaracode.Common.{
  subst, length-append, ℕ, ◌+◌, ◌≡◌, refl, ap, ◌∙◌, String, Bool, true, false, not, ◌&&◌, Option,
  none, some, List, [], ◌∷◌, ◌++◌, arith, is_some, ◌==◌, if◌then◌else◌, count_if, length, All,
  Option-cases, inl, inr,
}
use kryvaracode.Core.Exceptions.{Result, Result.ok, Result.raised, is_ok}
use kryvaracode.Db.Table.{Row, Table}
use kryvaracode.Db.Models.{AuditLog, Database}
use kryvaracode.Db.Records.{create_audit_entry}
use kryvaracode.Agent.Tools.{
  Value, Handler, Parsed, Parsed.invalid, Parsed.valid, Tool, get_tool, Printing, Invocation,
  audit_entry, write_audit, finish_call, call_parsed, invoke_tool,
}

-- The handlers of a tool write no audit records of their own.
abbrev pub IsQuiet : Handler → Type 0
IsQuiet handler = (user : Option ℕ) (db : Database) → (handler user db).0.audit_log ≡ db.audit_log

abbrev pub IsQuietParse : Parsed → Type 0
IsQuietParse (invalid message) = Unit
IsQuietParse (valid handler) = IsQuiet handler

-- The tool that a call finds, if any, does so with the arguments of the call.
abbrev pub IsQuietCall : List Tool → Invocation → Type 0
IsQuietCall tools i =
    (tool : Tool) → get_tool i.name tools ≡ some tool → IsQuietParse (tool.parse i.arguments)

-- The failures of a tool in the audit log.
abbrev pub is_failure_of : String → Row AuditLog → Bool
is_failure_of name row = (row.1.tool_name == name) && not row.1.success

module _ (p : Printing) (tools : List Tool) where
  unfoldable pub invoke_all : List Invocation → Database → Database
  invoke_all [] db = db
  invoke_all (i ∷ later) db = invoke_all later (invoke_tool p tools i db).0

  -- The calls of registered tools, and those of one tool that ended in an exception.
  unfoldable pub known_calls : List Invocation → ℕ
  known_calls = count_if (λ i. is_some (get_tool i.name tools))

  unfoldable pub failed_calls : String → List Invocation → Database → ℕ
  failed_calls name [] db = 0
  failed_calls name (i ∷ later) db =
      (if is_some (get_tool i.name tools)
          && ((i.name == name) && not (is_ok (invoke_tool p tools i db).1))
        then 1
        else 0)
      + failed_calls name later (invoke_tool p tools i db).0

  -- A record of the call stands at the end of the audit log.
  abbrev pub Logged : Invocation → Table AuditLog → Database → Bool → Type 0
  Logged i before after success =
      (entry : AuditLog) × (after.audit_log ≡ before ++ (i.key, entry) ∷ [])
      × (entry.tool_name ≡ i.name)
      × (entry.user_id ≡ i.user)
      × (entry.success ≡ success)

  write_audit-Logged :
      (i : Invocation) (success : Bool) (error : Option String) (db : Database)
      → i.fails ≡ false
      → Logged i db.audit_log (write_audit p i success error db) success
  unfolding write_audit audit_entry create_audit_entry
  write_audit-Logged i success error db up =
      (audit_entry p i success error, ground (arith, up), refl, refl, refl)

  finish_call-Logged :
      (i : Invocation) (db : Database) (answer : Result Value)
      → i.fails ≡ false
      → Logged i db.audit_log
          (finish_call p i (db, answer)).0
          (is_ok (finish_call p i (db, answer)).1)
  unfolding finish_call
  finish_call-Logged i db (ok v) up = write_audit-Logged i true none db up
  finish_call-Logged i db (raised e) up = write_audit-Logged i false (some (p.describe e)) db up

  call_parsed-Logged :
      (i : Invocation) (parsed : Parsed) (db : Database)
      → i.fails ≡ false
      → IsQuietParse parsed
      → Logged i db.audit_log (call_parsed p i parsed db).0 (is_ok (call_parsed p i parsed db).1)
  unfolding call_parsed
  call_parsed-Logged i (invalid message) db up quiet =
      write_audit-Logged i false (some (text_append "ValidationError: " message)) db up
  call_parsed-Logged i (valid handler) db up quiet =
      let (db', answer) = handler i.user db in
      let same = quiet i.user db in
      subst
        (λ before.
          Logged i before (finish_call p i (db', answer)).0
            (is_ok (finish_call p i (db', answer)).1))
        same (finish_call-Logged i db' answer up)

  invoke_tool-unknown :
      (i : Invocation) (db : Database)
      → get_tool i.name tools ≡ none
      → ((invoke_tool p tools i db).0 ≡ db) × (is_ok (invoke_tool p tools i db).1 ≡ false)
  unfolding invoke_tool
  invoke_tool-unknown i db absent = (rw (absent, invoke_tool) refl, rw (absent, invoke_tool) refl)

  invoke_tool-Logged :
      (i : Invocation) (db : Database) (tool : Tool)
      → get_tool i.name tools ≡ some tool
      → i.fails ≡ false
      → IsQuietParse (tool.parse i.arguments)
      → Logged i db.audit_log (invoke_tool p tools i db).0 (is_ok (invoke_tool p tools i db).1)
  unfolding invoke_tool
  invoke_tool-Logged i db tool found up quiet =
      rw (found, invoke_tool) (call_parsed-Logged i (tool.parse i.arguments) db up quiet)

  count_if-last :
      (q : Row AuditLog → Bool) (rows : Table AuditLog) (r : Row AuditLog)
      → count_if q (rows ++ r ∷ []) ≡ count_if q rows + (if q r then 1 else 0)
  count_if-last q [] r = omega arith
  count_if-last q (s ∷ rows) r = omega (arith, count_if-last q rows r)

  -- The audit log after a call, as far as it is counted.
  invoke_tool-counts :
      (i : Invocation) (name : String) (db : Database)
      → i.fails ≡ false
      → IsQuietCall tools i
      → (length (invoke_tool p tools i db).0.audit_log
          ≡ length db.audit_log + (if is_some (get_tool i.name tools) then 1 else 0))
        × (count_if (is_failure_of name) (invoke_tool p tools i db).0.audit_log
            ≡ count_if (is_failure_of name) db.audit_log
              + (if is_some (get_tool i.name tools)
                    && ((i.name == name) && not (is_ok (invoke_tool p tools i db).1))
                  then 1
                  else 0))
  invoke_tool-counts i name db up quiet = elim (Option-cases (get_tool i.name tools)) [
    | inl absent ↦
        let (same, _) = invoke_tool-unknown i db absent in
        (rw (same, absent) (omega arith), rw (same, absent) (omega arith))
    | inr (tool, found) ↦
        let (entry, log, named, _, success) =
          invoke_tool-Logged i db tool found up (quiet tool found) in
        let before = count_if (is_failure_of name) db.audit_log in
        let last = count_if-last (is_failure_of name) db.audit_log (i.key, entry) in
        let test =
          ap (λ n. (n == name) && not entry.success) named
          ∙ ap (λ s. (i.name == name) && not s) success in
        (
          rw (log, found) (omega (arith, length-append db.audit_log ((i.key, entry) ∷ []))),
          rw (log, found) (last ∙ ap (λ b. before + (if b then 1 else 0)) test),
        )
  ]

  -- Whatever tools are registered and called, if the handlers of the tools that are called write no audit
  -- records themselves and the audit's commits do not fail: a call of a name that is not registered leaves no record, every other call
  -- leaves one, whether its arguments are refused, its handler raises or it answers, and the records of
  -- failure under a name are the calls of that name that ended in an exception.
  pub invoke_all-audits :
      (calls : List Invocation) (name : String) (db : Database)
      → All (λ i. i.fails ≡ false) calls
      → All (IsQuietCall tools) calls
      → (length (invoke_all calls db).audit_log ≡ length db.audit_log + known_calls calls)
        × (count_if (is_failure_of name) (invoke_all calls db).audit_log
            ≡ count_if (is_failure_of name) db.audit_log + failed_calls name calls db)
  unfolding invoke_all known_calls failed_calls
  invoke_all-audits [] name db up quiet = (omega arith, omega arith)
  invoke_all-audits (i ∷ later) name db up quiet =
      let next = (invoke_tool p tools i db).0 in
      let (long, failures) = invoke_tool-counts i name db up.0 quiet.0 in
      let (longs, all) = invoke_all-audits later name next up.1 quiet.1 in
      (omega (arith, long, longs), omega (arith, failures, all))
