-- ===== src/Lifecycle/Blueprints/Leases/Calls.antt =====
-- The operations of roomsd/src/storage/blueprint-repository.ts that change the row of a channel or the
-- outcomes of its members, in any order.
use wardroom.Base.{ℕ, String, Option, none, some, List, [], ◌∷◌}
use wardroom.Lifecycle.Blueprints.{Blueprint, MemberOutcome, Tables, Setting}
use wardroom.Lifecycle.Blueprints.Suspending.{
  claim_suspend, renew_suspend, capture, release_suspend, mark_suspended, mark_suspending,
  record_member_outcome,
}
use wardroom.Lifecycle.Blueprints.Resuming.{
  claim_resume, renew_resume, mark_resumed, release_resume,
}
use wardroom.Lifecycle.Blueprints.Retaining.{retain_members}

pub data Call : Type 0 where
  claims_suspend : (key : String) → Blueprint → (owner : String) → Call
  renews_suspend releases_suspend marks_suspended marks_suspending : (key owner : String) → Call
  captures : Blueprint → (owner : String) → Call
  records : MemberOutcome → (owner : String) → Call
  retains : (ids : List String) → Call
  claims_resume : (key : String) → (generation : ℕ) → (owner : String) → Call
  renews_resume marks_resumed releases_resume : (key owner token : String) → Call

-- The tables that a call leaves; one that throws leaves them as they are.
abbrev pub retained_or : Tables → Option (Option Blueprint × Tables) → Tables
retained_or t none = t
retained_or t (some (blueprint, t')) = t'

module _ (setting : Setting) where
  -- The tables after a call.
  unfoldable pub serve : ℕ → Call → Tables → Tables
  serve now (claims_suspend key blueprint owner) t =
      (claim_suspend setting now key blueprint owner t).1
  serve now (renews_suspend key owner) t = (renew_suspend setting now key owner t).1
  serve now (releases_suspend key owner) t = (release_suspend key owner t).1
  serve now (marks_suspended key owner) t = (mark_suspended key owner t).1
  serve now (marks_suspending key owner) t = (mark_suspending setting now key owner t).1
  serve now (captures blueprint owner) t = (capture blueprint owner t).1
  serve now (records o owner) t = (record_member_outcome o owner t).1
  serve now (retains ids) t = retained_or t (retain_members ids t)
  serve now (claims_resume key generation owner) t =
      (claim_resume setting now key generation owner t).1
  serve now (renews_resume key owner token) t = (renew_resume setting now key owner token t).1
  serve now (marks_resumed key owner token) t = (mark_resumed setting now key owner token t).1
  serve now (releases_resume key owner token) t = release_resume setting now key owner token t

  unfoldable pub run : List (ℕ × Call) → Tables → Tables
  unfolding serve
  run [] t = t
  run ((now, call) ∷ calls) t = run calls (serve now call t)
