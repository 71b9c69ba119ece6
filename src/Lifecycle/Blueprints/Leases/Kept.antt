-- ===== src/Lifecycle/Blueprints/Leases/Kept.antt =====
-- What stays of a channel's row and its outcomes when members are dropped: `retainMembers` of
-- roomsd/src/storage/blueprint-repository.ts.
use wardroom.Base.{
  ℕ, ◌≡◌, refl, sym, ap, ◌∙◌, String, Bool, true, ◌&&◌, not, Option, none, some, List, ◌∷◌, arith,
  Option-cases, inl, inr, ◌⊎◌, subst, select, select-all, select-select, List-cases,
}
use wardroom.Lifecycle.Blueprints.{
  suspending, resuming, Member, Blueprint, Row, MemberOutcome, Tables, same,
}
use wardroom.Lifecycle.Blueprints.Retaining.{has, removed_members, retain_members}
use wardroom.Lifecycle.Blueprints.Leases.Calls.{retained_or}

-- A row that an owner suspends or resumes, under a lease.
abbrev IsHeldRow : (owner : String) → (until : ℕ) → Row → Type 0
IsHeldRow owner until r =
    ((r.state ≡ suspending) × (r.owner_id ≡ some owner) × (r.lease_until ≡ some until))
    ⊎ ((r.state ≡ resuming)
        × (r.resume_owner_id ≡ some owner)
        × (r.resume_lease_until ≡ some until))

abbrev pub IsHeld : (owner : String) → (until : ℕ) → Tables → Type 0
IsHeld owner until t = (r : Row) × (t.row ≡ some r) × IsHeldRow owner until r

-- The members that a blueprint has left.
abbrev fewer_of : (Member → Bool) → Option (List Member) → Option (List Member)
fewer_of p none = none
fewer_of p (some ms) = some (select p ms)

abbrev pub fewer : (Member → Bool) → Blueprint → Blueprint
fewer p b = record b { members = fewer_of p b.members }

-- Tables that differ by no more than members that are gone from the blueprint, and outcomes that are
-- gone: all other columns of the row, and the rest of the blueprint, are the same.
pub record IsKept (t t' : Tables) : Type 0 where
  pub row : Row
  pub was : t.row ≡ some row
  pub member_stays : Member → Bool
  pub still : t'.row ≡ some (record row { blueprint = fewer member_stays row.blueprint })
  pub outcome_stays : MemberOutcome → Bool
  pub outcomes : t'.outcomes ≡ select outcome_stays t.outcomes

fewer-all : (b : Blueprint) → fewer (λ x. true) b ≡ b
fewer-all b = ap (λ (ms : Option (List Member)). record b { members = ms }) (all_of b.members)
  where
    all_of : (o : Option (List Member)) → fewer_of (λ x. true) o ≡ o
    all_of none = refl
    all_of (some ms) = ap some (select-all ms)

fewer-fewer :
    (p q : Member → Bool) (b : Blueprint) → fewer p (fewer q b) ≡ fewer (λ x. q x && p x) b
fewer-fewer p q b = ap (λ (ms : Option (List Member)). record b { members = ms }) (both b.members)
  where
    both : (o : Option (List Member)) → fewer_of p (fewer_of q o) ≡ fewer_of (λ x. q x && p x) o
    both none = refl
    both (some ms) = ap some (select-select p q ms)

pub unchanged-IsKept : (t t' : Tables) (r : Row) → t.row ≡ some r → t' ≡ t → IsKept t t'
unchanged-IsKept t t' r e same = record {
  row = r;
  was = e;
  member_stays = λ x. true;
  still =
      ap (λ (x : Tables). x.row) same
      ∙ e
      ∙ ap (λ (b : Blueprint). some (record r { blueprint = b })) (sym (fewer-all r.blueprint));
  outcome_stays = λ o. true;
  outcomes = ap (λ (x : Tables). x.outcomes) same ∙ sym (select-all t.outcomes);
}

pub IsKept-trans : (t u v : Tables) → IsKept t u → IsKept u v → IsKept t v
IsKept-trans t u v f g =
    let same : g.row ≡ record f.row { blueprint = fewer f.member_stays f.row.blueprint } =
      some-injective (sym g.was ∙ f.still) in
    record {
      row = f.row;
      was = f.was;
      member_stays = λ x. f.member_stays x && g.member_stays x;
      still =
          g.still
          ∙ ap (λ (r : Row). some (record r { blueprint = fewer g.member_stays r.blueprint })) same
          ∙ ap (λ (b : Blueprint). some (record f.row { blueprint = b }))
              (fewer-fewer g.member_stays f.member_stays f.row.blueprint);
      outcome_stays = λ o. f.outcome_stays o && g.outcome_stays o;
      outcomes =
          g.outcomes
          ∙ ap (select g.outcome_stays) f.outcomes
          ∙ select-select g.outcome_stays f.outcome_stays t.outcomes;
    }
  where
    some-injective : {r s : Row} → some r ≡ some s → r ≡ s
    some-injective e = ground arith

pub IsKept-IsHeld :
    (owner : String) (until : ℕ) (t t' : Tables)
    → IsKept t t'
    → IsHeld owner until t
    → IsHeld owner until t'
IsKept-IsHeld owner until t t' k (r, e, h) =
    let same : r ≡ k.row = ground (arith, k.was) in
    (
      record k.row { blueprint = fewer k.member_stays k.row.blueprint },
      k.still,
      subst (IsHeldRow owner until) same h,
    )

pub retain_members-IsKept :
    (ids : List String) (t : Tables) (r : Row)
    → t.row ≡ some r
    → IsKept t (retained_or t (retain_members ids t))
unfolding retain_members
retain_members-IsKept ids t r e = elim (Option-cases r.blueprint.members) [
  | inl k ↦ unchanged-IsKept t _ r e (rw (e, k) refl)
  | inr (ms, k) ↦ elim (List-cases (removed_members ids ms)) [
    | inl l ↦ unchanged-IsKept t _ r e (rw (e, k, l) refl)
    | inr (id, gone, l) ↦ record {
      row = r;
      was = e;
      member_stays = λ x. has ids x.prior_session_id;
      still = rw (e, k, l) refl;
      outcome_stays = λ o. not (has (id ∷ gone) o.prior_session_id);
      outcomes = rw (e, k, l) refl;
    }
  ]
]
