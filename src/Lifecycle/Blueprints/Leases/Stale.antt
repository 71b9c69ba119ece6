-- ===== src/Lifecycle/Blueprints/Leases/Stale.antt =====
-- What an owner whose attempt was taken over can do: `resumeAttemptCurrent` and the operations of
-- roomsd/src/storage/blueprint-repository.ts that name an owner.
use wardroom.Base.{
  ℕ, ◌≡◌, ◌≢◌, String, Bool, false, some, List, [], ◌∷◌, arith, Option-cases, List-cases,
  Bool-cases, inl, inr,
}
use wardroom.Lifecycle.Blueprints.{Row, Tables, Setting}
use wardroom.Lifecycle.Blueprints.Suspending.{
  updated, is_claimable, claim_suspend, renew_suspend, capture, release_suspend, mark_suspended,
  mark_suspending, record_member_outcome,
}
use wardroom.Lifecycle.Blueprints.Resuming.{
  claim_resume, resume_attempt_current, renew_resume, mark_resumed, release_resume,
}
use wardroom.Lifecycle.Blueprints.Retaining.{removed_members, retain_members}
use wardroom.Lifecycle.Blueprints.Leases.Calls.{
  Call, claims_suspend, renews_suspend, releases_suspend, marks_suspended, marks_suspending,
  captures, records, retains, retained_or, claims_resume, renews_resume, marks_resumed,
  releases_resume, serve, run,
}

-- A call that is no claim of a resume attempt by an owner.
abbrev pub IsNoClaim : (owner : String) → Call → Type 0
IsNoClaim owner (claims_resume key generation o) = o ≢ owner
IsNoClaim owner call = Unit

abbrev pub AreNoClaims : (owner : String) → List (ℕ × Call) → Type 0
AreNoClaims owner [] = Unit
AreNoClaims owner ((now, call) ∷ calls) = IsNoClaim owner call × AreNoClaims owner calls

-- Tables in which an owner has no resume attempt.
abbrev pub IsStale : (owner : String) → Tables → Type 0
IsStale owner t = (r : Row) → t.row ≡ some r → r.resume_owner_id ≢ some owner

-- An update that does not give the attempt to an owner.
updated-IsStale :
    (owner : String) (test : Row → Bool) (change : Row → Row) (t : Tables)
    → ((r : Row) → r.resume_owner_id ≢ some owner → (change r).resume_owner_id ≢ some owner)
    → IsStale owner t
    → IsStale owner (updated test change t).1
updated-IsStale owner test change t keeps h = elim (Option-cases t.row) [
  | inl e ↦ λ s f. ground arith
  | inr (r, e) ↦ elim (Bool-cases (test r)) [
    | inl k ↦ λ s f. ground (arith, keeps r (h r e))
    | inr k ↦ λ s f. ground (arith, h s)
  ]
]

retain_members-IsStale :
    (owner : String) (ids : List String) (t : Tables)
    → IsStale owner t
    → IsStale owner (retained_or t (retain_members ids t))
unfolding retain_members
retain_members-IsStale owner ids t h = elim (Option-cases t.row) [
  | inl e ↦ λ s f. ground (arith, h s)
  | inr (r, e) ↦ elim (Option-cases r.blueprint.members) [
    | inl k ↦ λ s f. ground (arith, h s)
    | inr (ms, k) ↦ elim (List-cases (removed_members ids ms)) [
      | inl l ↦ λ s f. ground (arith, h s)
      | inr (id, gone, l) ↦ λ s f. ground (arith, h r e)
    ]
  ]
]

module _ (setting : Setting) where
  serve-IsStale :
      (owner : String) (now : ℕ) (call : Call) (t : Tables)
      → IsStale owner t
      → IsNoClaim owner call
      → IsStale owner (serve setting now call t)
  unfolding serve claim_suspend renew_suspend release_suspend mark_suspended mark_suspending capture
      record_member_outcome claim_resume renew_resume mark_resumed release_resume
  serve-IsStale owner now (claims_suspend key blueprint o) t h c = elim (Option-cases t.row) [
    | inl e ↦ λ s f. ground arith
    | inr (r, e) ↦ elim (Bool-cases (is_claimable now key r)) [
      | inl k ↦ λ s f. ground (arith, h r e)
      | inr k ↦ λ s f. ground (arith, h s)
    ]
  ]
  serve-IsStale owner now (renews_suspend key o) t h c = updated-IsStale owner _ _ t (λ r g. g) h
  serve-IsStale owner now (releases_suspend key o) t h c = updated-IsStale owner _ _ t (λ r g. g) h
  serve-IsStale owner now (marks_suspended key o) t h c = updated-IsStale owner _ _ t (λ r g. g) h
  serve-IsStale owner now (retains ids) t h c = retain_members-IsStale owner ids t h
  serve-IsStale owner now (marks_suspending key o) t h c = elim (Option-cases t.row) [
    | inl e ↦ λ s f. ground arith
    | inr (r, e) ↦ λ s f. ground (arith, h r e)
  ]
  serve-IsStale owner now (captures blueprint o) t h c = updated-IsStale owner _ _ t (λ r g. g) h
  serve-IsStale owner now (records x o) t h c = λ s f. ground (arith, h s)
  serve-IsStale owner now (claims_resume key generation o) t h c =
      updated-IsStale owner _ _ t (λ r g e. c (ground arith)) h
  serve-IsStale owner now (renews_resume key o token) t h c =
      updated-IsStale owner _ _ t (λ r g. g) h
  serve-IsStale owner now (marks_resumed key o token) t h c =
      updated-IsStale owner _ _ t (λ r g e. ground arith) h
  serve-IsStale owner now (releases_resume key o token) t h c =
      updated-IsStale owner _ _ t (λ r g e. ground arith) h

  run-IsStale :
      (owner : String) (calls : List (ℕ × Call)) (t : Tables)
      → IsStale owner t
      → AreNoClaims owner calls
      → IsStale owner (run setting calls t)
  unfolding run
  run-IsStale owner [] t h c = h
  run-IsStale owner ((now, call) ∷ calls) t h (one, others) =
      run-IsStale owner calls (serve setting now call t) (serve-IsStale owner now call t h one)
        others

  -- An owner that has no resume attempt, or whose attempt another one has taken over, has none after any
  -- calls but a claim of its own: no token that it shows is current, and its renewal and its end of the
  -- attempt are refused and change nothing.
  pub run-resume_attempt_current :
      (owner : String) (calls : List (ℕ × Call)) (t : Tables) (now : ℕ) (key token : String)
      → IsStale owner t
      → AreNoClaims owner calls
      → (resume_attempt_current setting now key owner token (run setting calls t) ≡ false)
        × (renew_resume setting now key owner token (run setting calls t)
            ≡ (false, run setting calls t))
        × (mark_resumed setting now key owner token (run setting calls t)
            ≡ (false, run setting calls t))
        × (release_resume setting now key owner token (run setting calls t) ≡ run setting calls t)
  unfolding resume_attempt_current renew_resume mark_resumed release_resume
  run-resume_attempt_current owner calls t now key token h c =
      let stale = run-IsStale owner calls t h c in
      elim (Option-cases (run setting calls t).row) [
        | inl e ↦ (ground arith, ground arith, ground arith, ground arith)
        | inr (r, e) ↦
            let other = stale r e in (ground arith, ground arith, ground arith, ground arith)
      ]
