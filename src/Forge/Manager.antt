-- ===== src/Forge/Manager.antt =====
-- src/agent/forge/manager.py and src/agent/forge/verifier.py: how a capability is forged. The synthesis
-- and the sandbox are parameters: code or the text of an exception, and a printed result with an error
-- or the text of an exception. Log lines and messages are values with what they print; a schema of
-- parameters is carried as a text beside the types that the test cases read.
pub mod Forged
mod Tests
use Prim.Native.String.{◌++◌ as text_append}
use kryvaracode.Common.{
  ℕ, suc, ◌+◌, String, Bool, true, false, not, Option, none, some, List, [], ◌∷◌, ◌++◌, map, ◌==◌,
  if◌then◌else◌,
}
use kryvaracode.Common.Dict.{Dict}
use kryvaracode.Forge.Registry.{ToolDefinition, ToolRegistry, register_tool}

-- What a parameter is described by: a dictionary with its `type`, a text, or something else.
pub data ParameterInfo : Type 0 where
  described : Option String → ParameterInfo
  named : String → ParameterInfo
  other : ParameterInfo

pub record Spec : Type 0 where
  pub name : Option String
  pub description : String
  pub parameters : Dict ParameterInfo
  pub schema : String
  pub logic_hint : String

-- The values of the test arguments: 1, 1.0, True and "test_value".
pub data Argument : Type 0 where
  one one_float truth test_value : Argument

pub record TestCase : Type 0 where
  pub args : Dict Argument
  pub expected : Option String

-- `p_info.get("type", "str")`, the text, or "str"
abbrev pub type_of : ParameterInfo → String
type_of (described none) = "str"
type_of (described (some t)) = t
type_of (named t) = t
type_of other = "str"

abbrev pub argument_of : String → Argument
argument_of t =
    if t == "int"
    then one
    else (if t == "float" then one_float else (if t == "bool" then truth else test_value))

unfoldable pub generate_test_cases : Spec → List TestCase
generate_test_cases spec =
    record { args = map (λ p. (p.0, argument_of (type_of p.1))) spec.parameters; expected = none }
    ∷ []

-- What the synthesis of a specification comes to, the lessons of the memory included.
pub data Synthesis : Type 0 where
  no_code : String → Synthesis
  code_of : String → Synthesis

-- What a run in the sandbox comes to.
pub data Ran : Type 0 where
  raises : String → Ran
  returned : String → Option String → Ran

-- A line of the verifier's log, with the number of its test.
pub data Log : Type 0 where
  runtime_error : ℕ → String → Log
  mismatch : ℕ → String → String → Log
  passed executed : ℕ → Log

pub data Verified : Type 0 where
  crashed : String → Verified
  finished : Bool → List Log → Verified

-- `if error:` holds of a text that is not empty.
abbrev pub real_error : Option String → Option String
real_error none = none
real_error (some e) = if e == "" then none else some e

-- The line of a test that ran, and whether it passed.
abbrev pub outcome : ℕ → TestCase → String → Option String → Bool × Log
outcome i test result error = elim (real_error error) [
  | some e ↦ (false, runtime_error i e)
  | none ↦ (elim test.expected [
    | none ↦ (true, executed i)
    | some expected ↦
        if result == expected then (true, passed i) else (false, mismatch i expected result)
  ])
]

-- The first result is the test's, the second that of the tests after it.
abbrev pub joined : Bool × Log → Verified → Verified
joined (ok, line) (crashed e) = crashed e
joined (ok, line) (finished rest lines) = finished (if ok then rest else false) (line ∷ lines)

pub data Message : Type 0 where
  no_name : Message
  synthesis_error : String → Message
  verification_failed : List Log → Message
  verification_error : String → Message
  forged : String → Message

module _ (execute : String → Dict Argument → Ran) where
  -- The loop of `verify` from a number of test on; an exception ends it.
  unfoldable pub verify_from : ℕ → String → List TestCase → Verified
  verify_from i code [] = finished true []
  verify_from i code (test ∷ tests) = elim (execute code test.args) [
    | raises e ↦ crashed e
    | returned result error ↦ joined (outcome i test result error) (verify_from (suc i) code tests)
  ]

  unfoldable pub verify : String → List TestCase → Verified
  unfolding verify_from
  verify code test_cases = verify_from 1 code test_cases

  module _ (synthesize : Spec → Synthesis) where
    abbrev pub definition_of : ℕ → String → Spec → ToolDefinition
    definition_of now tool_name spec = record {
      name = tool_name;
      description = spec.description;
      parameters = spec.schema;
      implementation_path = text_append "src/agent/forge/generated/" (text_append tool_name ".py");
      function_name = "execute";
      version = "1.0.0";
      created_at = now;
      is_verified = true;
    }

    -- The steps after the synthesis.
    unfoldable pub register_verified :
        ℕ → String → Spec → Verified → ToolRegistry → ToolRegistry × (Bool × Message)
    register_verified now tool_name spec (crashed e) r = (r, (false, verification_error e))
    register_verified now tool_name spec (finished true logs) r =
        (register_tool (definition_of now tool_name spec) r, (true, forged tool_name))
    register_verified now tool_name spec (finished false logs) r =
        (r, (false, verification_failed logs))

    unfoldable pub forge_named : ℕ → String → Spec → ToolRegistry → ToolRegistry × (Bool × Message)
    unfolding register_verified verify generate_test_cases
    forge_named now tool_name spec r = elim (synthesize spec) [
      | no_code e ↦ (r, (false, synthesis_error e))
      | code_of code ↦
          register_verified now tool_name spec (verify code (generate_test_cases spec)) r
    ]

    unfoldable pub forge_capability : ℕ → Spec → ToolRegistry → ToolRegistry × (Bool × Message)
    unfolding forge_named
    forge_capability now spec r = elim spec.name [
      | none ↦ (r, (false, no_name))
      | some tool_name ↦
          if tool_name == "" then (r, (false, no_name)) else forge_named now tool_name spec r
    ]
