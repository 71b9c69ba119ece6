-- ===== src/Lifecycle/Blueprints/Retaining.antt =====
-- The members that a channel still has: `retainMembers` of
-- roomsd/src/storage/blueprint-repository.ts, which asks for no lease.
use wardroom.Base.{String, Bool, not, Option, none, some, List, [], ◌∷◌, ◌===◌, any, select, map}
use wardroom.Lifecycle.Blueprints.{Member, Blueprint, Row, MemberOutcome, Tables}

abbrev pub has : List String → String → Bool
has ids id = any (λ (i : String). i === id) ids

-- The members of a blueprint that are still there, and the sessions of the others.
abbrev pub kept_members : (active : List String) → List Member → List Member
kept_members active ms = select (λ (x : Member). has active x.prior_session_id) ms

abbrev pub removed_members : (active : List String) → List Member → List String
removed_members active ms =
    map (λ (x : Member). x.prior_session_id)
      (select (λ (x : Member). not (has active x.prior_session_id)) ms)

-- `DELETE FROM blueprint_member_outcomes WHERE … prior_session_id IN (…)`
abbrev pub kept_outcomes : (removed : List String) → List MemberOutcome → List MemberOutcome
kept_outcomes removed os = select (λ (o : MemberOutcome). not (has removed o.prior_session_id)) os

reconciled : (active removed : List String) → List Member → Row → Tables → Option Blueprint × Tables
reconciled active [] ms r t = (some r.blueprint, t)
reconciled active (id ∷ ids) ms r t =
    let blueprint = record (r.blueprint) { members = some (kept_members active ms) } in
    (
      some blueprint,
      record {
        row = some (record r { blueprint = blueprint });
        outcomes = kept_outcomes (id ∷ ids) t.outcomes;
      },
    )

retained_in :
    (active : List String)
    → Option (List Member)
    → Row
    → Tables
    → Option (Option Blueprint × Tables)
retained_in active none r t = none
retained_in active (some ms) r t = some (reconciled active (removed_members active ms) ms r t)

retained : (active : List String) → Option Row → Tables → Option (Option Blueprint × Tables)
retained active none t = some (none, t)
retained active (some r) t = retained_in active r.blueprint.members r t

-- `retainMembers`: the blueprint, if there is one, and the tables; `none` is a thrown error, of a
-- blueprint without members, which rolls back.
unfoldable pub retain_members : (active : List String) → Tables → Option (Option Blueprint × Tables)
unfolding retained retained_in reconciled
retain_members active t = retained active t.row t
