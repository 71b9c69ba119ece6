-- ===== src/Lifecycle/Blueprints/Suspending.antt =====
-- The suspension of a channel: `claimSuspend` and the operations of the owner of a suspension in
-- roomsd/src/storage/blueprint-repository.ts. An operation gives whether a row was changed, and the
-- tables.
use wardroom.Base.{
  ℕ, ◌+◌, String, Bool, true, false, ◌&&◌, ◌||◌, Option, none, some, List, [], ◌∷◌, if◌then◌else◌,
  ltb, ◌===◌, ◌==◌, length, any, select,
}
use wardroom.Lifecycle.Blueprints.{
  suspending, suspended, is_suspending, is_suspended, is_active, Blueprint, Row, MemberOutcome,
  Tables, Setting, same, is_live, is_over, token_of,
}

-- `INSERT INTO channel_blueprints`, with the defaults of the other columns.
abbrev pub new_row : Blueprint → (key owner : String) → (lease : ℕ) → Row
new_row blueprint key owner lease = record {
  blueprint = blueprint;
  state = suspending;
  idempotency_key = some key;
  owner_id = some owner;
  lease_until = some lease;
  generation = 0;
  fence_epoch = 1;
  suspend_key_known = true;
  resume_key = none;
  resume_owner_id = none;
  resume_lease_until = none;
  resume_epoch = 0;
  resume_recovery_known = true;
}

-- `ON CONFLICT(channel_id) DO UPDATE SET`
abbrev pub taken_row : (key owner : String) → (lease : ℕ) → Row → Row
taken_row key owner lease r = record r {
  state = suspending;
  owner_id = some owner;
  idempotency_key = some key;
  suspend_key_known = true;
  lease_until = some lease;
  fence_epoch = r.fence_epoch + 1;
}

abbrev is_free : ℕ → Option ℕ → Bool
is_free now none = true
is_free now (some until) = is_over now (some until)

-- Whether a suspension may be claimed with a key.
abbrev pub is_claimable : ℕ → (key : String) → Row → Bool
is_claimable now key r =
    is_active r.state
    || is_suspended r.state && r.suspend_key_known && same r.idempotency_key key
    || is_suspending r.state
      && r.suspend_key_known
      && same r.idempotency_key key
      && is_free now r.lease_until

-- Whether a row is being suspended by an owner, and with a key.
abbrev pub is_suspended_by : (owner : String) → Row → Bool
is_suspended_by owner r = is_suspending r.state && same r.owner_id owner

abbrev pub is_suspension : (key owner : String) → Row → Bool
is_suspension key owner r = same r.idempotency_key key && is_suspended_by owner r

-- `UPDATE channel_blueprints SET … WHERE …`, and whether it changed the row.
abbrev update_row : (Row → Bool) → (Row → Row) → Tables → Option Row → Bool × Tables
update_row test change t none = (false, t)
update_row test change t (some r) =
    if test r then (true, record t { row = some (change r) }) else (false, t)

abbrev pub updated : (Row → Bool) → (Row → Row) → Tables → Bool × Tables
updated test change t = update_row test change t t.row

module _ (setting : Setting) where
  abbrev pub lease_from : ℕ → ℕ
  lease_from now = now + setting.lease_duration_ms

  claimed : ℕ → (key owner : String) → Blueprint → Tables → Option Row → Bool × Tables
  claimed now key owner blueprint t none =
      (true, record t { row = some (new_row blueprint key owner (lease_from now)) })
  claimed now key owner blueprint t (some r) =
      if is_claimable now key r
      then (
        true,
        record {
          row = some (taken_row key owner (lease_from now) r);
          outcomes = if is_active r.state then [] else t.outcomes;
        },
      )
      else (false, t)

  unfoldable pub claim_suspend :
      ℕ → (key : String) → Blueprint → (owner : String) → Tables → Bool × Tables
  unfolding claimed
  claim_suspend now key blueprint owner t = claimed now key owner blueprint t t.row

  unfoldable pub renew_suspend : ℕ → (key owner : String) → Tables → Bool × Tables
  renew_suspend now key owner t =
      updated (λ r. is_suspension key owner r && is_live now r.lease_until)
        (λ r. record r { lease_until = some (lease_from now) }) t

  marked : ℕ → (key owner : String) → Tables → Option Row → Tables
  marked now key owner t none = record t {
    row = some (new_row (record { members = none; rest = "{}" }) key owner (lease_from now));
  }
  marked now key owner t (some r) = record t { row = some (taken_row key owner (lease_from now) r) }

  -- `markSuspending`
  unfoldable pub mark_suspending : ℕ → (key owner : String) → Tables → Bool × Tables
  unfolding marked
  mark_suspending now key owner t = (true, marked now key owner t t.row)

  abbrev token_if : (key owner : String) → Option Row → Option String
  token_if key owner none = none
  token_if key owner (some r) =
      if is_suspension key owner r then some (token_of setting owner key r.fence_epoch) else none

  unfoldable pub current_suspend_fence_token : (key owner : String) → Tables → Option String
  current_suspend_fence_token key owner t = token_if key owner t.row

  abbrev is_leased : ℕ → (key owner : String) → Option Row → Bool
  is_leased now key owner none = false
  is_leased now key owner (some r) = is_suspension key owner r && is_live now r.lease_until

  unfoldable pub verify_suspend_fence_token : ℕ → (key owner token : String) → Tables → Bool
  unfolding current_suspend_fence_token
  verify_suspend_fence_token now key owner token t =
      same (current_suspend_fence_token key owner t) token && is_leased now key owner t.row

unfoldable pub capture : Blueprint → (owner : String) → Tables → Bool × Tables
capture blueprint owner t =
    updated (is_suspended_by owner) (λ r. record r { blueprint = blueprint }) t

unfoldable pub release_suspend : (key owner : String) → Tables → Bool × Tables
release_suspend key owner t =
    updated (is_suspension key owner) (λ r. record r { lease_until = none }) t

unfoldable pub mark_suspended : (key owner : String) → Tables → Bool × Tables
mark_suspended key owner t =
    updated (is_suspension key owner) (λ r. record r { state = suspended; lease_until = none }) t

-- `ON CONFLICT(channel_id, prior_session_id) DO UPDATE SET`
unfoldable pub put_outcome : MemberOutcome → List MemberOutcome → List MemberOutcome
put_outcome o [] = o ∷ []
put_outcome o (p ∷ ps) =
    let rest = put_outcome o ps in
    if p.prior_session_id === o.prior_session_id then o ∷ ps else p ∷ rest

abbrev with_row : Option Row → (Row → Bool) → Bool
with_row none test = false
with_row (some r) test = test r

unfoldable pub record_member_outcome : MemberOutcome → (owner : String) → Tables → Bool × Tables
unfolding put_outcome
record_member_outcome o owner t =
    if with_row t.row (is_suspended_by owner)
    then (true, record t { outcomes = put_outcome o t.outcomes })
    else (false, t)

abbrev stopped_in : (prior_session_id : String) → MemberOutcome → Bool
stopped_in id o = o.prior_session_id === id && o.stopped

unfoldable pub member_stopped : (prior_session_id : String) → Tables → Bool
member_stopped id t = any (stopped_in id) t.outcomes

abbrev count_members : Option Row → ℕ
count_members none = 0
count_members (some r) = elim r.blueprint.members [ none ↦ 0 | some ms ↦ length ms ]

unfoldable pub suspension_complete : Tables → Bool
suspension_complete t =
    ltb 0 (count_members t.row)
    && count_members t.row == length (select (λ (o : MemberOutcome). o.stopped) t.outcomes)

abbrev key_known : Option Row → Option String
key_known none = none
key_known (some r) =
    if (is_suspending r.state || is_suspended r.state) && r.suspend_key_known
    then r.idempotency_key
    else none

unfoldable pub suspend_idempotency_key : Tables → Option String
suspend_idempotency_key t = key_known t.row
