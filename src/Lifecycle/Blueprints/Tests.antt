-- ===== src/Lifecycle/Blueprints/Tests.antt =====
-- A channel that is suspended by one owner and resumed by another.
use wardroom.Base.{
  ℕ, ◌≡◌, refl, ap, sym, ◌∙◌, ◌≢◌, ◌===◌, String, true, false, Option, none, some, List, [], ◌∷◌,
  arith, text_discrete,
}
use wardroom.Lifecycle.Blueprints.{Row, Member, Blueprint, Tables, Setting}
use wardroom.Lifecycle.Blueprints.Suspending.{
  claim_suspend, renew_suspend, capture, release_suspend, mark_suspended, put_outcome,
  record_member_outcome, suspension_complete, verify_suspend_fence_token,
}
use wardroom.Lifecycle.Blueprints.Resuming.{
  claim_resume, current_resume_fence_token, resume_attempt_current, renew_resume, mark_resumed,
  release_resume,
}
use wardroom.Lifecycle.Blueprints.Retaining.{retain_members}
use wardroom.Lifecycle.Blueprints.Leases.Calls.{
  Call, claims_suspend, marks_suspended, records, retains, claims_resume, renews_resume, serve, run,
}
use wardroom.Lifecycle.Blueprints.Leases.Kept.{IsKept}
use wardroom.Lifecycle.Blueprints.Leases.{run-claim_suspend, run-claim_resume}
use wardroom.Lifecycle.Blueprints.Leases.Stale.{IsStale, run-resume_attempt_current}

runs : Unit {0}
unfolding text_discrete claim_suspend renew_suspend capture release_suspend mark_suspended
    put_outcome record_member_outcome suspension_complete claim_resume current_resume_fence_token
    resume_attempt_current renew_resume mark_resumed release_resume retain_members serve run
runs = tt

-- Numbers are written in unary.
abbrev unary : ℕ → String
unary n = "1"

some-inj : {s t : String} → some s ≡ some t → s ≡ t
some-inj e = ground arith

true_ne_false : true ≢ false
true_ne_false e = ground arith

abbrev setting : Setting
setting = record { lease_duration_ms = 30; decimal = unary }

abbrev member : String → Member
member id = record { prior_session_id = id; rest = "" }

abbrev blueprint : Blueprint
blueprint = record { members = some (member "s1" ∷ member "s2" ∷ []); rest = "" }

abbrev empty : Tables
empty = record { row = none; outcomes = [] }

abbrev others : List (ℕ × Call)
others =
    (12, claims_suspend "k" blueprint "b")
    ∷ (20, marks_suspended "k" "b")
    ∷ (25, retains ("s1" ∷ []))
    ∷ (39, claims_resume "r" 1 "b")
    ∷ []

b_ne_a : ◌≢◌ {A = String} "b" "a"
unfolding text_discrete
b_ne_a e = true_ne_false (ap (λ (s : String). s === "b") e)

claimed_test : (claim_suspend setting 10 "k" blueprint "a" empty).0 ≡ true
unfolding runs
claimed_test = refl

-- The second member is gone.
retained_test :
    run setting others (claim_suspend setting 10 "k" blueprint "a" empty).1
    ≡ (claim_suspend setting 10 "k"
        (record { members = some (member "s1" ∷ []); rest = "" })
        "a"
        empty).1
unfolding runs
retained_test = refl

run-claim_suspend_example :
    IsKept
      (claim_suspend setting 10 "k" blueprint "a" empty).1
      (run setting others (claim_suspend setting 10 "k" blueprint "a" empty).1)
    × (verify_suspend_fence_token setting 35 "k" "a" "a:k:1"
          (run setting others (claim_suspend setting 10 "k" blueprint "a" empty).1)
        ≡ verify_suspend_fence_token setting 35 "k" "a" "a:k:1"
            (claim_suspend setting 10 "k" blueprint "a" empty).1)
run-claim_suspend_example =
    run-claim_suspend setting 10 "k" blueprint "a" empty others 35 "k" "a" "a:k:1" claimed_test
      (b_ne_a, omega arith, (b_ne_a, omega arith, (tt, omega arith, (b_ne_a, omega arith, tt))))

abbrev down : Tables
down =
    run setting
      ((10, claims_suspend "k" blueprint "a")
        ∷ (11, records (record { prior_session_id = "s1"; stopped = true; error = none }) "a")
        ∷ (11, retains ("s1" ∷ []))
        ∷ (12, marks_suspended "k" "a")
        ∷ [])
      empty

down_complete : suspension_complete down ≡ true
unfolding runs
down_complete = refl

resumed_test : (claim_resume setting 20 "r" 1 "a" down).0 ≡ true
unfolding runs
resumed_test = refl

abbrev later : List (ℕ × Call)
later = (25, claims_resume "r" 1 "b") ∷ (26, claims_suspend "k" blueprint "b") ∷ []

run-claim_resume_example :
    IsKept
      (claim_resume setting 20 "r" 1 "a" down).1
      (run setting later (claim_resume setting 20 "r" 1 "a" down).1)
    × (resume_attempt_current setting 30 "r" "a" "a:r:1"
          (run setting later (claim_resume setting 20 "r" 1 "a" down).1)
        ≡ resume_attempt_current setting 30 "r" "a" "a:r:1"
            (claim_resume setting 20 "r" 1 "a" down).1)
run-claim_resume_example =
    run-claim_resume setting 20 "r" 1 "a" down later 30 "r" "a" "a:r:1" resumed_test
      (b_ne_a, omega arith, (b_ne_a, omega arith, tt))

-- The attempt of `a` has ended and `b` has taken it over.
abbrev taken : Tables
taken = run setting ((20, claims_resume "r" 1 "a") ∷ (60, claims_resume "r" 1 "b") ∷ []) down

abbrev resumer : Option Row → Option String
resumer none = none
resumer (some r) = r.resume_owner_id

taken-resumer : resumer taken.row ≡ some "b"
unfolding runs
taken-resumer = refl

taken-IsStale : IsStale "a" taken
taken-IsStale r e f = b_ne_a (some-inj (sym taken-resumer ∙ ap resumer e ∙ f))

run-resume_attempt_current_example :
    (resume_attempt_current setting 70 "r" "a" "a:r:1"
        (run setting ((65, renews_resume "r" "b" "b:r:1") ∷ []) taken)
      ≡ false)
    × (renew_resume setting 70 "r" "a" "a:r:1"
          (run setting ((65, renews_resume "r" "b" "b:r:1") ∷ []) taken)
        ≡ (false, run setting ((65, renews_resume "r" "b" "b:r:1") ∷ []) taken))
    × (mark_resumed setting 70 "r" "a" "a:r:1"
          (run setting ((65, renews_resume "r" "b" "b:r:1") ∷ []) taken)
        ≡ (false, run setting ((65, renews_resume "r" "b" "b:r:1") ∷ []) taken))
    × (release_resume setting 70 "r" "a" "a:r:1"
          (run setting ((65, renews_resume "r" "b" "b:r:1") ∷ []) taken)
        ≡ run setting ((65, renews_resume "r" "b" "b:r:1") ∷ []) taken)
run-resume_attempt_current_example =
    run-resume_attempt_current setting "a" ((65, renews_resume "r" "b" "b:r:1") ∷ []) taken 70 "r"
      "a:r:1" taken-IsStale (tt, tt)
