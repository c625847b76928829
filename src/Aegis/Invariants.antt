-- ===== src/Aegis/Invariants.antt =====
-- src/agent/aegis/invariants.py and src/agent/aegis/verifier.py: the registry of forbidden patterns and
-- the scan of code. Code and paths are lists of code points. Whether an address is blocked is not
-- modelled: it rests on the resolution of names.
pub mod Scan
mod Tests
use kryvaracode.Common.{
  ℕ, ◌+◌, String, Bool, true, false, not, ◌&&◌, ◌||◌, Option, none, some, List, [], ◌∷◌, leb, eqb,
  if◌then◌else◌, length, keep,
}
use kryvaracode.Coordination.Topics.{codes, starts_with}
use kryvaracode.Aegis.Pattern.{
  Class, any, space, between, Pattern, literal, one, many, boundary, followed_by, either, search,
}

pub data RiskLevel : Type 0 where
  critical high medium low : RiskLevel

abbrev pub risk_value : RiskLevel → ℕ
risk_value critical = 3
risk_value high = 2
risk_value medium = 1
risk_value low = 0

pub record SafetyInvariant : Type 0 where
  pub name : String
  pub pattern : Pattern
  pub risk_level : RiskLevel
  pub description : String
  pub allowed_prefixes : Option (List String)

abbrev text : String → Pattern
text s = literal (codes s)

abbrev digit : Class
digit = between 48 57

-- `k+`
abbrev repeated : Class → Pattern
repeated k = followed_by (one k) (many k)

-- `\.\d+`
abbrev dot_number : Pattern
dot_number = followed_by (text ".") (repeated digit)

-- The second number of 172.16.0.0/12.
abbrev sixteen_to_31 : Pattern
sixteen_to_31 =
    either (followed_by (text "1") (one (between 54 57)))
      (either (followed_by (text "2") (one digit)) (followed_by (text "3") (one (between 48 49))))

abbrev internal_host : Pattern
internal_host = either (text "internal") (
    either (text "localhost") (
      either (text "127.0.0.1") (
        either
          (followed_by (text "10") (followed_by dot_number (followed_by dot_number dot_number)))
          (either
            (followed_by (text "172.")
              (followed_by sixteen_to_31 (followed_by dot_number dot_number)))
            (either (followed_by (text "192.168") (followed_by dot_number dot_number))
              (followed_by (text "169.254") (followed_by dot_number dot_number)))))))

abbrev pub recursive_delete : SafetyInvariant
recursive_delete = record {
  name = "Recursive Delete";
  pattern = either (text "shutil.rmtree(") (
      followed_by (text "os.system(") (
        followed_by (many any)
          (followed_by (text "rm") (followed_by (repeated space) (text "-rf")))));
  risk_level = critical;
  description = "Prohibits recursive directory deletion.";
  allowed_prefixes = some ("C:\\Users\\User\\KRYVARACODE\\temp\\" ∷ "/tmp/" ∷ []);
}

abbrev pub system_file_access : SafetyInvariant
system_file_access = record {
  name = "System File Access";
  pattern = either (text "C:\\Windows\\") (either (text "/etc/passwd") (text "/etc/shadow"));
  risk_level = critical;
  description = "Prohibits access to sensitive system directories.";
  allowed_prefixes = none;
}

abbrev pub remote_shell : SafetyInvariant
remote_shell = record {
  name = "Arbitrary Remote Shell";
  pattern =
      either
        (followed_by (text "subprocess.Popen(")
          (followed_by (many any) (followed_by (text "shell=True") (many any))))
        (text "os.popen(");
  risk_level = critical;
  description = "Prohibits shell execution of arbitrary strings.";
  allowed_prefixes = none;
}

abbrev pub unauthorized_socket : SafetyInvariant
unauthorized_socket = record {
  name = "Unauthorized Socket/Connection";
  pattern = either (text "socket.socket(") (
      followed_by (text "requests.") (
        followed_by (either (text "get") (text "post")) (
          followed_by (text "(")
            (followed_by (many any) (followed_by boundary (followed_by internal_host boundary))))));
  risk_level = high;
  description = "Prevents unauthorized internal network probing (RFC1918, link-local).";
  allowed_prefixes = none;
}

abbrev pub ctypes_access : SafetyInvariant
ctypes_access = record {
  name = "CTypes Memory Access";
  pattern = either (text "import ctypes") (text "ctypes.");
  risk_level = high;
  description = "Prohibits direct memory manipulation via ctypes.";
  allowed_prefixes = none;
}

abbrev pub process_termination : SafetyInvariant
process_termination = record {
  name = "Process Termination";
  pattern = either (text "os._exit(") (text "sys.exit(");
  risk_level = medium;
  description = "Prevents tools from killing the host process.";
  allowed_prefixes = none;
}

abbrev pub forbidden_patterns : List SafetyInvariant
forbidden_patterns =
    recursive_delete ∷ system_file_access ∷ remote_shell ∷ unauthorized_socket ∷ ctypes_access
    ∷ process_termination ∷ []

-- `any(target_path.startswith(prefix) for prefix in prefixes)`
unfoldable pub any_prefix : List ℕ → List String → Bool
unfolding starts_with
any_prefix path [] = false
any_prefix path (prefix ∷ prefixes) = starts_with path (codes prefix) || any_prefix path prefixes

-- The exemption of an invariant for a path. An empty list or path counts as none.
unfoldable pub is_exempt : SafetyInvariant → Option (List ℕ) → Bool
unfolding any_prefix
is_exempt invariant none = false
is_exempt invariant (some path) = elim invariant.allowed_prefixes [
  | none ↦ false
  | some prefixes ↦ not (eqb (length path) 0) && any_prefix path prefixes
]

unfoldable pub violations_of :
    List SafetyInvariant → List ℕ → Option (List ℕ) → List SafetyInvariant
unfolding search is_exempt
violations_of [] code target_path = []
violations_of (invariant ∷ invariants) code target_path =
    let rest = violations_of invariants code target_path in
    if search invariant.pattern code
    then (if is_exempt invariant target_path then rest else invariant ∷ rest)
    else rest

unfoldable pub check_violation : List ℕ → Option (List ℕ) → List SafetyInvariant
unfolding violations_of
check_violation code target_path = violations_of forbidden_patterns code target_path

abbrev pub is_critical : SafetyInvariant → Bool
is_critical v = eqb (risk_value v.risk_level) 3

abbrev pub total_risk : List SafetyInvariant → ℕ
total_risk [] = 0
total_risk (v ∷ vs) = risk_value v.risk_level + total_risk vs

pub record Verdict : Type 0 where
  pub is_safe : Bool
  pub violations : Option (List SafetyInvariant)
  pub score : ℕ

-- `verify_code` of the verifier, its branches as they are.
abbrev pub judge : List SafetyInvariant → Verdict
judge [] = record { is_safe = true; violations = none; score = 0 }
judge (v ∷ vs) =
    let total_risk_score = total_risk (v ∷ vs) in
    let rejected : Verdict = record {
      is_safe = false;
      violations = some (v ∷ vs);
      score = total_risk_score;
    } in
    if not (eqb (length (keep is_critical (v ∷ vs))) 0)
    then rejected
    else if leb 3 total_risk_score
    then rejected
    else rejected

unfoldable pub verify_code : List ℕ → Option (List ℕ) → Verdict
unfolding check_violation
verify_code code target_path = judge (check_violation code target_path)

-- The keys of a tool's definition that are read; a missing `code` is the empty text.
pub record ToolDefinition : Type 0 where
  pub code : Option (List ℕ)
  pub target_path : Option (List ℕ)

unfoldable pub scan_tool_definition : ToolDefinition → Bool
unfolding verify_code
scan_tool_definition tool_def =
    (verify_code (elim tool_def.code [ none ↦ [] | some code ↦ code ]) tool_def.target_path).is_safe
