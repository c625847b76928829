-- ===== src/Coordination/SharedState.antt =====
-- src/agent/coordination/shared_state.py: the key-value store with versions, expiry, a change log and
-- observers. `V` is the type of the values. A method runs under the lock up to its log entry, so
-- it is one function from state to state. Clock readings are arguments, and all readings of one
-- call are its `now`; times and time-to-live are whole numbers of one unit. An observer is the
-- identity of its callback: what a callback does is outside, and the calls that are made of it
-- are the list `notified`.
pub mod Views
pub mod Writes
pub mod Swaps
pub mod Sweeps
pub mod Log
pub mod Versions
mod Tests
use kryvaracode.Common.{
  ℕ, zero, suc, ◌+◌, ◌-◌, String, Bool, true, false, not, Option, none, some, List, [], ◌∷◌, ◌++◌,
  map, eqb, ltb, if◌then◌else◌, length, keep, count_if, last_slice, push_bounded,
}
use kryvaracode.Common.Dict
use kryvaracode.Common.Dict.{Dict, lookup, insert, without, values}
use kryvaracode.Common.Dict.Sweep.{keys_where, delete_all}

pub record StateEntry (V : Type 0) : Type 0 where
  pub key : String
  pub value : V
  pub version : ℕ
  pub created_at : ℕ
  pub updated_at : ℕ
  pub ttl_seconds : Option ℕ
  pub created_by : String

pub data StateChangeType : Type 0 where
  set_change delete_change expired_change : StateChangeType

pub record StateChangeEvent (V : Type 0) : Type 0 where
  pub change_type : StateChangeType
  pub key : String
  pub value : Option V
  pub old_value : Option V
  pub version : ℕ
  pub timestamp : ℕ
  pub source : String

-- `deque(maxlen=1000)`
abbrev pub log_limit : ℕ
log_limit = 1000

pub record SharedState (V : Type 0) : Type 0 where
  pub store : Dict (StateEntry V)
  pub change_log : List (StateChangeEvent V)
  pub observers : List ℕ
  pub cleaning : Bool
  pub notified : List (ℕ × StateChangeEvent V)

-- What `updater_fn` did, and whether there was an entry for it.
pub data Update (V : Type 0) : Type 0 where
  missing raised : Update V
  updated : V → Update V

-- The dictionary that `get_stats` answers.
pub record Stats : Type 0 where
  pub total_keys : ℕ
  pub expired_pending : ℕ
  pub total_changes : ℕ
  pub observer_count : ℕ

module _ {V : Type 0} where
  -- `__init__`
  unfoldable pub new_state : SharedState V
  new_state = record {
    store = [];
    change_log = [];
    observers = [];
    cleaning = false;
    notified = [];
  }

  -- The time elapsed is negative if the clock was set back: then nothing is expired.
  unfoldable pub is_expired : StateEntry V → ℕ → Bool
  is_expired entry now = elim entry.ttl_seconds [
    | none ↦ false
    | some ttl ↦ ltb ttl (now - entry.updated_at)
  ]

  unfoldable pub delete_unlocked : String → SharedState V → SharedState V
  delete_unlocked key s = record s { store = without key s.store }

  -- Each observer in turn; an exception of one is logged and the next is called.
  unfoldable pub notify_observers : StateChangeEvent V → SharedState V → SharedState V
  notify_observers event s = record s {
    notified = s.notified ++ map (λ observer. (observer, event)) s.observers;
  }

  -- The two lines that end every method which changes a value.
  unfoldable pub announce : StateChangeEvent V → SharedState V → SharedState V
  unfolding notify_observers push_bounded
  announce event s =
      notify_observers event (record s { change_log = push_bounded log_limit s.change_log event })

  -- The entry that `set` leaves in the store.
  unfoldable pub written : Option (StateEntry V) → String → V → String → Option ℕ → ℕ → StateEntry V
  written none key value source ttl now = record {
    key = key;
    value = value;
    version = 1;
    created_at = now;
    updated_at = now;
    ttl_seconds = ttl;
    created_by = source;
  }
  written (some entry) key value source ttl now = record entry {
    value = value;
    version = entry.version + 1;
    updated_at = now;
    ttl_seconds = elim ttl [ none ↦ entry.ttl_seconds | some t ↦ some t ];
    created_by = source;
  }

  abbrev pub old_of : Option (StateEntry V) → Option V
  old_of none = none
  old_of (some entry) = some entry.value

  unfoldable pub set :
      String → V → String → Option ℕ → ℕ → SharedState V → SharedState V × StateEntry V
  unfolding written announce
  set key value source ttl now s =
      let entry = written (lookup key s.store) key value source ttl now in
      (
        announce
            (record {
              change_type = set_change;
              key = key;
              value = some value;
              old_value = old_of (lookup key s.store);
              version = entry.version;
              timestamp = now;
              source = source;
            })
            (record s { store = insert key entry s.store }),
        entry,
      )

  unfoldable pub get : String → ℕ → SharedState V → SharedState V × Option V
  unfolding is_expired delete_unlocked
  get key now s = elim (lookup key s.store) [
    | none ↦ (s, none)
    | some entry ↦
        if is_expired entry now then (delete_unlocked key s, none) else (s, some entry.value)
  ]

  unfoldable pub get_entry : String → ℕ → SharedState V → SharedState V × Option (StateEntry V)
  unfolding is_expired delete_unlocked
  get_entry key now s = elim (lookup key s.store) [
    | none ↦ (s, none)
    | some entry ↦ if is_expired entry now then (delete_unlocked key s, none) else (s, some entry)
  ]

  unfoldable pub exists : String → ℕ → SharedState V → SharedState V × Bool
  unfolding is_expired delete_unlocked
  exists key now s = elim (lookup key s.store) [
    | none ↦ (s, false)
    | some entry ↦ if is_expired entry now then (delete_unlocked key s, false) else (s, true)
  ]

  unfoldable pub delete : String → String → ℕ → SharedState V → SharedState V × Bool
  unfolding delete_unlocked announce
  delete key source now s = elim (lookup key s.store) [
    | none ↦ (s, false)
    | some entry ↦ (
      announce
          (record {
            change_type = delete_change;
            key = key;
            value = none;
            old_value = some entry.value;
            version = entry.version;
            timestamp = now;
            source = source;
          })
          (delete_unlocked key s),
      true,
    )
  ]

  unfoldable pub sweep_expired_unlocked : ℕ → SharedState V → SharedState V
  unfolding keys_where delete_all is_expired
  sweep_expired_unlocked now s = record s {
    store = delete_all (keys_where (λ e. is_expired e now) s.store) s.store;
  }

  unfoldable pub keys : ℕ → SharedState V → SharedState V × List String
  unfolding sweep_expired_unlocked
  keys now s = let s' = sweep_expired_unlocked now s in (s', Dict.keys s'.store)

  unfoldable pub items : ℕ → SharedState V → SharedState V × Dict V
  unfolding sweep_expired_unlocked
  items now s = let s' = sweep_expired_unlocked now s in (s', map (λ e. (e.0, e.1.value)) s'.store)

  unfoldable pub clear : SharedState V → SharedState V × ℕ
  clear s = (record s { store = [] }, length s.store)

  -- The write of `atomic_update` and of `compare_and_set`.
  abbrev pub bumped : StateEntry V → V → String → ℕ → StateEntry V
  bumped entry value source now = record entry {
    value = value;
    version = entry.version + 1;
    updated_at = now;
    created_by = source;
  }

  unfoldable pub overwrite : String → StateEntry V → V → String → ℕ → SharedState V → SharedState V
  unfolding announce
  overwrite key entry value source now s =
      announce
        (record {
          change_type = set_change;
          key = key;
          value = some value;
          old_value = some entry.value;
          version = entry.version + 1;
          timestamp = now;
          source = source;
        })
        (record s { store = insert key (bumped entry value source now) s.store })

  -- `updater_fn` gives `none` where it raises: the lock is released and nothing is written.
  unfoldable pub atomic_update :
      String → (V → Option V) → String → ℕ → SharedState V → SharedState V × Update V
  unfolding is_expired delete_unlocked overwrite
  atomic_update key updater_fn source now s = elim (lookup key s.store) [
    | none ↦ (s, missing)
    | some entry ↦
        if is_expired entry now
        then (delete_unlocked key s, missing)
        else elim (updater_fn entry.value) [
          | none ↦ (s, raised)
          | some new_value ↦ (overwrite key entry new_value source now s, updated new_value)
        ]
  ]

  -- `differs` is Python's `!=` on the values.
  unfoldable pub compare_and_set :
      (V → V → Bool) → String → V → V → String → ℕ → SharedState V → SharedState V × Bool
  unfolding is_expired delete_unlocked overwrite
  compare_and_set differs key expected new_value source now s = elim (lookup key s.store) [
    | none ↦ (s, false)
    | some entry ↦
        if is_expired entry now
        then (delete_unlocked key s, false)
        else if differs entry.value expected
        then (s, false)
        else (overwrite key entry new_value source now s, true)
  ]

  unfoldable pub observe : ℕ → SharedState V → SharedState V
  observe callback s = record s { observers = s.observers ++ callback ∷ [] }

  unfoldable pub unobserve : ℕ → SharedState V → SharedState V
  unobserve callback s = record s { observers = keep (λ o. not (eqb o callback)) s.observers }

  unfoldable pub get_change_history : ℕ → SharedState V → List (StateChangeEvent V)
  unfolding last_slice
  get_change_history limit s = last_slice limit s.change_log

  unfoldable pub get_stats : ℕ → SharedState V → Stats
  unfolding is_expired
  get_stats now s = record {
    total_keys = length s.store;
    expired_pending = count_if (λ e. is_expired e now) (values s.store);
    total_changes = length s.change_log;
    observer_count = length s.observers;
  }

  abbrev pub expiry_event : StateEntry V → ℕ → StateChangeEvent V
  expiry_event entry now = record {
    change_type = expired_change;
    key = entry.key;
    value = none;
    old_value = some entry.value;
    version = entry.version;
    timestamp = now;
    source = "ttl_cleanup";
  }

  unfoldable pub announce_expired : List (StateEntry V) → ℕ → SharedState V → SharedState V
  unfolding announce
  announce_expired [] now s = s
  announce_expired (entry ∷ es) now s =
      announce_expired es now (announce (expiry_event entry now) s)

  unfoldable pub cleanup_expired : ℕ → SharedState V → SharedState V
  unfolding sweep_expired_unlocked announce_expired
  cleanup_expired now s =
      announce_expired (keep (λ e. is_expired e now) (values s.store)) now
        (sweep_expired_unlocked now s)

  unfoldable pub start_ttl_cleanup : SharedState V → SharedState V
  start_ttl_cleanup s = record s { cleaning = true }

  unfoldable pub stop_ttl_cleanup : SharedState V → SharedState V
  stop_ttl_cleanup s = record s { cleaning = false }
