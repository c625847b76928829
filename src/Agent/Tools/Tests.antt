-- ===== src/Agent/Tools/Tests.antt =====
-- A registry of three tools, one of which writes audit records itself and is not called, for src/agent/tools.py.
use kryvaracode.Common.{
  ℕ, ◌+◌, ◌≡◌, refl, subst, String, true, false, none, some, List, [], ◌∷◌, length, count_if, arith,
}
use kryvaracode.Core.Exceptions.{Result.ok, Result.raised, http}
use kryvaracode.Db.Models.{AuditLog, empty_database}
use kryvaracode.Db.Records.{create_audit_entry}
use kryvaracode.Agent.Tools.{
  Fields, Fields.end, Fields.field, Value.text, Value.null, Value.object, Parsed, Parsed.valid,
  Tool, get_tool, Printing, Invocation, sanitize_arguments, sanitize_args, is_sensitive,
  invoke_tool, call_parsed, finish_call, write_audit, audit_entry,
}
use kryvaracode.Agent.Tools.Audit.{
  is_failure_of, invoke_all, known_calls, failed_calls, IsQuietParse, invoke_all-audits,
}

abbrev nested : Fields
nested = field "Token" (text "t") (field "auth" (object (field "password" (text "p") end)) end)

-- What the audit log keeps of nested arguments, and what the function that nothing calls would.
sanitized :
    (sanitize_arguments nested
      ≡ field "Token" (text "***") (field "auth" (object (field "password" (text "p") end)) end))
    × (sanitize_args nested
        ≡ field "Token"
            (text "***")
            (field "auth" (object (field "password" (text "***") end)) end))
unfolding sanitize_arguments sanitize_args is_sensitive
sanitized = (refl, refl)

abbrev answering : Fields → Parsed
answering arguments = valid (λ user db. (db, ok null))

abbrev raising : Fields → Parsed
raising arguments = valid (λ user db. (db, raised (http 400 "Bad")))

abbrev inner : AuditLog
inner = record {
  tool_name = "inner";
  user_id = none;
  arguments = none;
  success = true;
  error = none;
  duration_ms = none;
}

-- A tool that calls another, and writes an audit record so.
abbrev nesting : Fields → Parsed
nesting arguments = valid (λ user db. ((create_audit_entry 9 inner db).0, ok null))

abbrev tool_named : String → (Fields → Parsed) → Tool
tool_named name parse = record {
  name = name;
  description = "";
  parse = parse;
  requires_user = false;
}

abbrev good : Tool
good = tool_named "good" answering

abbrev bad : Tool
bad = tool_named "bad" raising

abbrev tools : List Tool
tools = good ∷ bad ∷ tool_named "nest" nesting ∷ []

found-IsQuiet :
    (t tool : Tool)
    → some t ≡ some tool
    → IsQuietParse (t.parse end)
    → IsQuietParse (tool.parse end)
found-IsQuiet t tool found quiet =
    let same : t ≡ tool = ground (arith, found) in
    subst (λ u. IsQuietParse (u.parse end)) same quiet

abbrev printing : Printing
printing = record { dumps = λ fields. none; describe = λ e. "Error" }

abbrev call : ℕ → String → Invocation
call key name = record {
  fails = false;
  key = key;
  duration_ms = 1;
  name = name;
  arguments = end;
  user = none;
}

abbrev calls : List Invocation
calls = call 1 "good" ∷ call 2 "bad" ∷ call 3 "none" ∷ []

runs :
    (known_calls printing tools calls ≡ 2)
    × (failed_calls printing tools "bad" calls empty_database ≡ 1)
unfolding known_calls failed_calls get_tool invoke_tool call_parsed finish_call write_audit
    audit_entry create_audit_entry empty_database
runs = (refl, refl)

invoke_all-audits_example :
    (length (invoke_all printing tools calls empty_database).audit_log
      ≡ length empty_database.audit_log + known_calls printing tools calls)
    × (count_if (is_failure_of "bad") (invoke_all printing tools calls empty_database).audit_log
        ≡ count_if (is_failure_of "bad") empty_database.audit_log
          + failed_calls printing tools "bad" calls empty_database)
unfolding get_tool
invoke_all-audits_example =
    invoke_all-audits printing tools calls "bad" empty_database (refl, (refl, (refl, tt)))
      (
        λ tool found. found-IsQuiet good tool found (λ user db. refl),
        (
          λ tool found. found-IsQuiet bad tool found (λ user db. refl),
          (λ tool found. absurd (ground (arith, found)), tt),
        ),
      )
