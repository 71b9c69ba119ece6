-- ===== src/Lifecycle/Blueprints/Resuming.antt =====
-- The return of a channel: `claimResume` and the operations of the owner of an attempt in
-- roomsd/src/storage/blueprint-repository.ts.
use wardroom.Base.{
  ℕ, ◌+◌, String, Bool, true, false, ◌&&◌, ◌||◌, Option, none, some, if◌then◌else◌, ◌==◌,
}
use wardroom.Lifecycle.Blueprints.{
  suspended, resuming, active, is_suspended, is_resuming, Row, Tables, Setting, same, is_live,
  is_over, token_of, token_text,
}
use wardroom.Lifecycle.Blueprints.Suspending.{lease_from, updated}

module _ (setting : Setting) where
  -- Whether an attempt may be claimed with a key and a generation.
  abbrev pub is_resumable : ℕ → (key : String) → (generation : ℕ) → Row → Bool
  is_resumable now key generation r =
      is_suspended r.state
      || is_resuming r.state
        && r.resume_recovery_known
        && same r.resume_key key
        && r.generation == generation
        && is_over now r.resume_lease_until

  unfoldable pub claim_resume :
      ℕ → (key : String) → (generation : ℕ) → (owner : String) → Tables → Bool × Tables
  claim_resume now key generation owner t =
      updated (is_resumable now key generation)
        (λ r. record r {
          state = resuming;
          resume_key = some key;
          resume_owner_id = some owner;
          resume_lease_until = some (lease_from setting now);
          resume_epoch = r.resume_epoch + 1;
          resume_recovery_known = true;
          generation = generation;
        })
        t

  -- Whether a row is being resumed by an owner with a key, under a lease.
  abbrev pub is_attempt : ℕ → (key owner : String) → Row → Bool
  is_attempt now key owner r =
      is_resuming r.state
      && same r.resume_key key
      && same r.resume_owner_id owner
      && is_live now r.resume_lease_until

  abbrev pub is_current : ℕ → (key owner token : String) → Row → Bool
  is_current now key owner token r =
      is_attempt now key owner r
      && same (token_text setting r.resume_owner_id r.resume_key r.resume_epoch) token

  abbrev token_if : ℕ → (key owner : String) → Option Row → Option String
  token_if now key owner none = none
  token_if now key owner (some r) =
      if is_attempt now key owner r then some (token_of setting owner key r.resume_epoch) else none

  unfoldable pub current_resume_fence_token : ℕ → (key owner : String) → Tables → Option String
  current_resume_fence_token now key owner t = token_if now key owner t.row

  abbrev current_in : ℕ → (key owner token : String) → Option Row → Bool
  current_in now key owner token none = false
  current_in now key owner token (some r) = is_current now key owner token r

  -- `resumeAttemptCurrent`, which the writes of an attempt test first.
  unfoldable pub resume_attempt_current : ℕ → (key owner token : String) → Tables → Bool
  resume_attempt_current now key owner token t = current_in now key owner token t.row

  unfoldable pub renew_resume : ℕ → (key owner token : String) → Tables → Bool × Tables
  renew_resume now key owner token t =
      updated (is_current now key owner token)
        (λ r. record r { resume_lease_until = some (lease_from setting now) }) t

  -- `markResumed` and `markActive`
  unfoldable pub mark_resumed : ℕ → (key owner token : String) → Tables → Bool × Tables
  mark_resumed now key owner token t =
      updated (is_current now key owner token)
        (λ r. record r { state = active; resume_owner_id = none; resume_lease_until = none }) t

  unfoldable pub release_resume : ℕ → (key owner token : String) → Tables → Tables
  release_resume now key owner token t =
      (updated (is_current now key owner token)
        (λ r. record r {
          state = suspended;
          resume_key = none;
          resume_owner_id = none;
          resume_lease_until = none;
        })
        t).1
