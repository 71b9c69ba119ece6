-- ===== src/Lifecycle/Blueprints.antt =====
-- Who may suspend or resume a channel: `SQLiteBlueprintStore` of
-- roomsd/src/storage/blueprint-repository.ts, the operations on the rows of one channel. A lease is the
-- instant at which it ends, an operation reads the clock once, and the times of updates are left out.
-- A comparison with NULL is false.
pub mod Suspending
pub mod Resuming
pub mod Retaining
mod Leases
mod Tests
use Prim.Native.String.{◌++◌}
use wardroom.Base.{ℕ, String, Bool, true, false, Option, none, some, List, leb, ltb, ◌===◌}

pub data BlueprintState : Type 0 where
  suspending suspended resuming active : BlueprintState

-- A member of a blueprint, by its prior session and the rest of its JSON.
pub record Member : Type 0 where
  pub prior_session_id : String
  pub rest : String

-- A blueprint: its members, where it has that field, and the rest of its JSON.
pub record Blueprint : Type 0 where
  pub members : Option (List Member)
  pub rest : String

-- A row of `channel_blueprints`.
pub record Row : Type 0 where
  pub blueprint : Blueprint
  pub state : BlueprintState
  pub idempotency_key : Option String
  pub owner_id : Option String
  pub lease_until : Option ℕ
  pub generation : ℕ
  pub fence_epoch : ℕ
  pub suspend_key_known : Bool
  pub resume_key : Option String
  pub resume_owner_id : Option String
  pub resume_lease_until : Option ℕ
  pub resume_epoch : ℕ
  pub resume_recovery_known : Bool

-- A row of `blueprint_member_outcomes`.
pub record MemberOutcome : Type 0 where
  pub prior_session_id : String
  pub stopped : Bool
  pub error : Option String

pub record Tables : Type 0 where
  pub row : Option Row
  pub outcomes : List MemberOutcome

-- How the store is made: the length of a lease, and the decimal text of a number.
pub record Setting : Type 0 where
  pub lease_duration_ms : ℕ
  pub decimal : ℕ → String

abbrev pub is_suspending : BlueprintState → Bool
is_suspending suspending = true
is_suspending _ = false

abbrev pub is_suspended : BlueprintState → Bool
is_suspended suspended = true
is_suspended _ = false

abbrev pub is_resuming : BlueprintState → Bool
is_resuming resuming = true
is_resuming _ = false

abbrev pub is_active : BlueprintState → Bool
is_active active = true
is_active _ = false

-- A column that holds a text.
abbrev pub same : Option String → String → Bool
same none s = false
same (some t) s = t === s

-- A lease that has not ended, of a column that may be empty.
abbrev pub is_live : ℕ → Option ℕ → Bool
is_live now none = false
is_live now (some until) = ltb now until

-- A lease that has ended.
abbrev pub is_over : ℕ → Option ℕ → Bool
is_over now none = false
is_over now (some until) = leb until now

-- A fence token.
abbrev pub token_of : Setting → (owner key : String) → ℕ → String
token_of setting owner key epoch = owner ++ ":" ++ key ++ ":" ++ setting.decimal epoch

-- The token that a row stands for, where its columns are filled.
abbrev pub token_text : Setting → Option String → Option String → ℕ → Option String
token_text setting (some owner) (some key) epoch = some (token_of setting owner key epoch)
token_text setting _ _ epoch = none
