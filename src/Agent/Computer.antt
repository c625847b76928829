-- ===== src/Agent/Computer.antt =====
-- src/agent/computer.py: which commands and processes are refused, and what is cut of the output. A text
-- is the list of its characters, read on ASCII. What the operating system does is not modelled.
pub mod Policy
mod Tests
use kryvaracode.Common.{
  ℕ, ◌-◌, Bool, true, false, ◌||◌, List, [], ◌∷◌, map, eqb, leb, ltb, length, last_slice,
  if◌then◌else◌, String,
}
use kryvaracode.Coordination.Topics.{codes}
use kryvaracode.Core.Exceptions.{
  Exception, Result, Result.ok, Result.raised, raise_app, ErrorClass.forbidden,
}
use kryvaracode.Aegis.Pattern.{
  Class, Class.space, Class.between, Class.one_of, Class.none_of, Pattern, literal, one, many,
  boundary, followed_by, search,
}
use kryvaracode.Common.Texts.{lower}
use kryvaracode.Common.Texts.{lstrip, rstrip}

abbrev pub text : String → Pattern
text s = literal (codes s)

-- `\s+`, `\s*` and `[a-z]`
abbrev pub spaces : Pattern
spaces = followed_by (one space) (many space)

abbrev letter : Class
letter = between 97 122

-- `[^|;&]*`
abbrev same_command : Pattern
same_command = many (none_of (124 ∷ 59 ∷ 38 ∷ []))

-- `\bword\b`
abbrev word : String → Pattern
word s = followed_by boundary (followed_by (text s) boundary)

-- `rm\s+[^|;&]*-[a-z]*r`
unfoldable pub recursive_remove : Pattern
recursive_remove = followed_by (text "rm") (
    followed_by spaces
      (followed_by same_command (followed_by (text "-") (followed_by (many letter) (text "r")))))

-- `\bdd\s+[^|;&]*of=/dev/`
unfoldable pub device_write : Pattern
device_write =
    followed_by boundary
      (followed_by (text "dd") (followed_by spaces (followed_by same_command (text "of=/dev/"))))

-- `:\(\)\s*\{\s*:\s*\|\s*:`
unfoldable pub fork_bomb : Pattern
fork_bomb = followed_by (text ":()") (
    followed_by (many space) (
      followed_by (text "{") (
        followed_by (many space) (
          followed_by (text ":") (
            followed_by (many space)
              (followed_by (text "|") (followed_by (many space) (text ":"))))))))

-- `\bformat\s+[a-z]:`
unfoldable pub format_drive : Pattern
format_drive =
    followed_by boundary
      (followed_by (text "format") (followed_by spaces (followed_by (one letter) (text ":"))))

-- `del\s+/s[^|;&]*\\\\windows`, and `rd` in place of `del`: two backslashes
unfoldable pub windows_remove : String → Pattern
windows_remove command = followed_by (text command) (
    followed_by spaces (
      followed_by (text "/s")
        (followed_by same_command (followed_by (literal (92 ∷ 92 ∷ [])) (text "windows")))))

-- `\breg\s+delete\s+`
abbrev pub registry_front : Pattern
registry_front =
    followed_by boundary
      (followed_by (text "reg") (followed_by spaces (followed_by (text "delete") spaces)))

-- `\breg\s+delete\s+HKLM`
unfoldable pub registry_delete : Pattern
registry_delete = followed_by registry_front (text "HKLM")

-- `_BLOCKED_PATTERNS`
unfoldable pub blocked_patterns : List Pattern
unfolding recursive_remove device_write fork_bomb format_drive windows_remove registry_delete
blocked_patterns =
    recursive_remove
    ∷ word "mkfs"
    ∷ device_write
    ∷ fork_bomb
    ∷ word "shutdown"
    ∷ word "reboot"
    ∷ word "halt"
    ∷ word "poweroff"
    ∷ format_drive
    ∷ windows_remove "del"
    ∷ windows_remove "rd"
    ∷ registry_delete
    ∷ []

-- `[|&;<>`$()\n\r]`
abbrev pub shell_metachars : List ℕ
shell_metachars = 124 ∷ 38 ∷ 59 ∷ 60 ∷ 62 ∷ 96 ∷ 36 ∷ 40 ∷ 41 ∷ 10 ∷ 13 ∷ []

-- `any(re.search(pattern, lowered) for pattern in patterns)`
unfoldable pub is_blocked : List Pattern → List ℕ → Bool
is_blocked [] lowered = false
is_blocked (p ∷ ps) lowered = search p lowered || is_blocked ps lowered

-- `command.strip().lower()`
unfoldable pub lowered : List ℕ → List ℕ
lowered command = map lower (lstrip (rstrip command))

unfoldable pub check_command : List ℕ → Result (Unit {0})
unfolding is_blocked blocked_patterns lowered search
check_command command =
    if is_blocked blocked_patterns (lowered command)
    then raised (raise_app forbidden "Command blocked by destructive-pattern policy")
    else (if search (one (one_of shell_metachars)) command
        then raised (
            raise_app forbidden
              "Shell metacharacters are not allowed; use a single command with arguments")
        else ok tt)

abbrev pub max_output_chars : ℕ
max_output_chars = 8000

pub record Output : Type 0 where
  pub shown : List ℕ
  pub truncated : Bool

-- `_truncate`: the end of a long text.
unfoldable pub truncate : List ℕ → Output
truncate output =
    if ltb max_output_chars (length output)
    then record { shown = last_slice max_output_chars output; truncated = true }
    else record { shown = output; truncated = false }

-- The guard of `process_kill`: the pid may be killed.
unfoldable pub may_kill : ℕ → ℕ → Bool
may_kill own_pid pid = if leb pid 4 || eqb pid own_pid then false else true
