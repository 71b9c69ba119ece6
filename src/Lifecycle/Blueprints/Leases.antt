-- ===== src/Lifecycle/Blueprints/Leases.antt =====
-- What a lease keeps others from: the operations of roomsd/src/storage/blueprint-repository.ts on the row
-- of a channel and the outcomes of its members, in any order.
pub mod Calls
pub mod Kept
pub mod Stale
use wardroom.Base.{
  ℕ, ◌+◌, ◌<◌, ◌≡◌, ◌≢◌, refl, sym, ap, ◌∙◌, String, Bool, true, false, ◌&&◌, ◌||◌, not, Option,
  none, some, List, [], ◌∷◌, arith, Option-cases, Bool-cases, inl, inr, ◌⊎◌, ltb, leb, ◌===◌,
  if◌then◌else◌, subst, select, select-all, select-select, List-cases,
}
use wardroom.Lifecycle.Blueprints.{
  BlueprintState, suspending, suspended, resuming, active, Member, Blueprint, Row, MemberOutcome,
  Tables, Setting, is_active, same, is_live, is_over,
}
use wardroom.Lifecycle.Blueprints.Suspending.{
  lease_from, is_claimable, claim_suspend, renew_suspend, capture, release_suspend, mark_suspended,
  record_member_outcome, verify_suspend_fence_token,
}
use wardroom.Lifecycle.Blueprints.Retaining.{has, removed_members, retain_members}
use wardroom.Lifecycle.Blueprints.Leases.Calls.{
  Call, claims_suspend, renews_suspend, releases_suspend, marks_suspended, marks_suspending,
  captures, records, retains, claims_resume, renews_resume, marks_resumed, releases_resume,
  retained_or, serve, run,
}
use wardroom.Lifecycle.Blueprints.Resuming.{
  is_resumable, claim_resume, resume_attempt_current, renew_resume, mark_resumed, release_resume,
}
use wardroom.Lifecycle.Blueprints.Leases.Kept.{
  IsHeld, IsKept, unchanged-IsKept, IsKept-trans, IsKept-IsHeld, retain_members-IsKept,
}

-- A call that is by another owner than one. `retainMembers` is by nobody; `markSuspending`, which takes
-- a suspension from whoever has it, is not one.
abbrev pub IsByOther : (owner : String) → Call → Type 0
IsByOther owner (claims_suspend key blueprint o) = o ≢ owner
IsByOther owner (renews_suspend key o) = o ≢ owner
IsByOther owner (releases_suspend key o) = o ≢ owner
IsByOther owner (marks_suspended key o) = o ≢ owner
IsByOther owner (marks_suspending key o) = ⊥
IsByOther owner (captures blueprint o) = o ≢ owner
IsByOther owner (records x o) = o ≢ owner
IsByOther owner (retains ids) = Unit
IsByOther owner (claims_resume key generation o) = o ≢ owner
IsByOther owner (renews_resume key o token) = o ≢ owner
IsByOther owner (marks_resumed key o token) = o ≢ owner
IsByOther owner (releases_resume key o token) = o ≢ owner

-- Calls of others, each before an instant.
abbrev pub AreByOthers : (owner : String) → (until : ℕ) → List (ℕ × Call) → Type 0
AreByOthers owner until [] = Unit
AreByOthers owner until ((now, call) ∷ calls) =
    IsByOther owner call × (now < until) × AreByOthers owner until calls

module _ (setting : Setting) where
  serve-IsKept :
      (owner : String) (until now : ℕ) (call : Call) (t : Tables)
      → IsHeld owner until t
      → IsByOther owner call
      → now < until
      → IsKept t (serve setting now call t)
  unfolding serve claim_suspend renew_suspend release_suspend mark_suspended capture
      record_member_outcome claim_resume renew_resume mark_resumed release_resume
  serve-IsKept owner until now (retains ids) t (r, e, h) ne lt = retain_members-IsKept ids t r e
  serve-IsKept owner until now (claims_suspend key blueprint o) t (r, e, h) ne lt =
      unchanged-IsKept t _ r e (ground arith)
  serve-IsKept owner until now (renews_suspend key o) t (r, e, h) ne lt =
      unchanged-IsKept t _ r e (ground arith)
  serve-IsKept owner until now (releases_suspend key o) t (r, e, h) ne lt =
      unchanged-IsKept t _ r e (ground arith)
  serve-IsKept owner until now (marks_suspended key o) t (r, e, h) ne lt =
      unchanged-IsKept t _ r e (ground arith)
  serve-IsKept owner until now (marks_suspending key o) t h ne lt = absurd ne
  serve-IsKept owner until now (captures blueprint o) t (r, e, h) ne lt =
      unchanged-IsKept t _ r e (ground arith)
  serve-IsKept owner until now (records x o) t (r, e, h) ne lt =
      unchanged-IsKept t _ r e (ground arith)
  serve-IsKept owner until now (claims_resume key generation o) t (r, e, h) ne lt =
      unchanged-IsKept t _ r e (ground arith)
  serve-IsKept owner until now (renews_resume key o token) t (r, e, h) ne lt =
      unchanged-IsKept t _ r e (ground arith)
  serve-IsKept owner until now (marks_resumed key o token) t (r, e, h) ne lt =
      unchanged-IsKept t _ r e (ground arith)
  serve-IsKept owner until now (releases_resume key o token) t (r, e, h) ne lt =
      unchanged-IsKept t _ r e (ground arith)

  run-IsKept :
      (owner : String) (until : ℕ) (calls : List (ℕ × Call)) (t : Tables)
      → IsHeld owner until t
      → AreByOthers owner until calls
      → IsKept t (run setting calls t)
  unfolding run
  run-IsKept owner until [] t (r, e, h) o = unchanged-IsKept t t r e refl
  run-IsKept owner until ((now, call) ∷ calls) t h (ne, lt, o) =
      let next = serve setting now call t in
      let kept = serve-IsKept owner until now call t h ne lt in
      IsKept-trans t next (run setting calls next) kept
        (run-IsKept owner until calls next (IsKept-IsHeld owner until t next kept h) o)

  claim_suspend-IsHeld :
      (now : ℕ) (key : String) (blueprint : Blueprint) (owner : String) (t : Tables)
      → (claim_suspend setting now key blueprint owner t).0 ≡ true
      → IsHeld owner (lease_from setting now) (claim_suspend setting now key blueprint owner t).1
  unfolding claim_suspend
  claim_suspend-IsHeld now key blueprint owner t h = elim (Option-cases t.row) [
    | inl e ↦ rw e (_, refl, inl (refl, refl, refl))
    | inr (r, e) ↦ elim (Bool-cases (is_claimable now key r)) [
      | inl k ↦ rw (e, k) (_, refl, inl (refl, refl, refl))
      | inr k ↦ absurd (ground arith)
    ]
  ]

  claim_resume-IsHeld :
      (now : ℕ) (key : String) (generation : ℕ) (owner : String) (t : Tables)
      → (claim_resume setting now key generation owner t).0 ≡ true
      → IsHeld owner (lease_from setting now) (claim_resume setting now key generation owner t).1
  unfolding claim_resume
  claim_resume-IsHeld now key generation owner t h = elim (Option-cases t.row) [
    | inl e ↦ absurd (ground arith)
    | inr (r, e) ↦ elim (Bool-cases (is_resumable setting now key generation r)) [
      | inl k ↦ rw (e, k) (_, refl, inr (refl, refl, refl))
      | inr k ↦ absurd (ground arith)
    ]
  ]

  -- Tokens are as current as in the tables before.
  IsKept-tokens :
      (t t' : Tables) (n : ℕ) (key owner token : String)
      → IsKept t t'
      → (verify_suspend_fence_token setting n key owner token t'
          ≡ verify_suspend_fence_token setting n key owner token t)
        × (resume_attempt_current setting n key owner token t'
            ≡ resume_attempt_current setting n key owner token t)
  unfolding verify_suspend_fence_token resume_attempt_current
  IsKept-tokens t t' n key owner token k = (rw (k.still, k.was) refl, rw (k.still, k.was) refl)

  -- From a claim of a suspension that goes through until its lease ends, whatever other owners
  -- call but `markSuspending`, and whatever members `retainMembers` drops, in whatever order:
  -- nothing of the channel's row changes but that members are gone from its blueprint, no outcome
  -- is changed or added, and every fence token is as valid at every time as the claim left it.
  pub run-claim_suspend :
      (now : ℕ) (key : String) (blueprint : Blueprint) (owner : String) (t : Tables)
      (calls : List (ℕ × Call)) (n : ℕ) (k o token : String)
      → (claim_suspend setting now key blueprint owner t).0 ≡ true
      → AreByOthers owner (now + setting.lease_duration_ms) calls
      → IsKept
          (claim_suspend setting now key blueprint owner t).1
          (run setting calls (claim_suspend setting now key blueprint owner t).1)
        × (verify_suspend_fence_token setting n k o token
              (run setting calls (claim_suspend setting now key blueprint owner t).1)
            ≡ verify_suspend_fence_token setting n k o token
                (claim_suspend setting now key blueprint owner t).1)
  run-claim_suspend now key blueprint owner t calls n k o token h others =
      let claimed = (claim_suspend setting now key blueprint owner t).1 in
      let kept =
        run-IsKept owner (now + setting.lease_duration_ms) calls claimed
          (claim_suspend-IsHeld now key blueprint owner t h) others in
      (kept, (IsKept-tokens claimed (run setting calls claimed) n k o token kept).0)

  -- From a claim of a resume attempt that goes through until its lease ends, whatever other owners
  -- call but `markSuspending`, and whatever members `retainMembers` drops, in whatever order:
  -- nothing of the channel's row changes but that members are gone from its blueprint, no outcome
  -- is changed or added, and every token of an attempt is as current at every time as the claim
  -- left it.
  pub run-claim_resume :
      (now : ℕ) (key : String) (generation : ℕ) (owner : String) (t : Tables)
      (calls : List (ℕ × Call)) (n : ℕ) (k o token : String)
      → (claim_resume setting now key generation owner t).0 ≡ true
      → AreByOthers owner (now + setting.lease_duration_ms) calls
      → IsKept
          (claim_resume setting now key generation owner t).1
          (run setting calls (claim_resume setting now key generation owner t).1)
        × (resume_attempt_current setting n k o token
              (run setting calls (claim_resume setting now key generation owner t).1)
            ≡ resume_attempt_current setting n k o token
                (claim_resume setting now key generation owner t).1)
  run-claim_resume now key generation owner t calls n k o token h others =
      let claimed = (claim_resume setting now key generation owner t).1 in
      let kept =
        run-IsKept owner (now + setting.lease_duration_ms) calls claimed
          (claim_resume-IsHeld now key generation owner t h) others in
      (kept, (IsKept-tokens claimed (run setting calls claimed) n k o token kept).1)
