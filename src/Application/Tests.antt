-- ===== src/Application/Tests.antt =====
-- One operator, a planner and a worker in one channel: runs of the commands, and the theorems at
-- these inputs.
mod Messages
mod Registering
use text.Mathlib.TextEquality.{eq_iff}
use wardroom.Base.{
  String, ◌≡◌, ◌⊎◌, refl, true, false, Option, none, some, List, [], ◌∷◌, arith, ℕ, subst,
  text_discrete, text_leb, is_space, blank,
}
use wardroom.Contracts.{
  SessionRole, operator, planner, worker, role_discrete, runtime, active, Session, Channel,
  Membership, Change, Payload, session_registered, channel_registered, membership_joined,
}
use wardroom.Store.{
  Repository, Times, is_active_member, is_active_member_as, active_membership_count,
  active_membership_count_except, active_membership_channels, append_change, write,
}
use wardroom.Store.Sessions.{is_open_channel, insert_session, mark_session_ended}
use wardroom.Store.Channels.{
  insert_channel, close_channel, update_channel_label, update_channel_broadcast_policy,
  update_channel_coordination_policy,
}
use wardroom.Store.Memberships.{
  insert_membership, leave_membership, newest, update_session_role, demote_all, replaced_planners,
}
use wardroom.Store.Controls.{commit_control}
use wardroom.Store.Wf.{IsWellFormed}
use wardroom.Application.Access.{Context, check_seat}
use wardroom.Application.{
  Command, registers_session, registers_channel, joins, leaves, closes_channel, updates_role,
  perform, register_session, register_channel, join, leave, end_session, close_channel_as,
  label_channel, set_channel_broadcast_policy, set_channel_coordination_policy,
  update_session_role_as, commit_control_as,
}
use wardroom.Application.History.{
  answer, Request, serve, run, run-IsWellFormed, IsPublished, run-IsPublished,
}
use wardroom.Application.Authority.{IsThrown, perform-IsThrown, join_authorized}
use wardroom.Application.Effects.{close_channel_authorized, leave-left, update_session_role-handoff}
use wardroom.Application.Effects.Ending.{OperatorReaches, PlannerSupervises, end_session_authorized}

methods : Unit {0}
unfolding perform register_session register_channel join leave end_session close_channel_as
    label_channel set_channel_broadcast_policy set_channel_coordination_policy
    update_session_role_as commit_control_as check_seat insert_session mark_session_ended
    insert_channel close_channel update_channel_label update_channel_broadcast_policy
    update_channel_coordination_policy insert_membership leave_membership newest update_session_role
    demote_all replaced_planners commit_control answer is_active_member is_active_member_as
    active_membership_count active_membership_count_except active_membership_channels append_change
    text_discrete text_leb role_discrete is_space blank run
methods = tt

abbrev empty : Repository
empty = record {
  db = record { sessions = []; channels = []; memberships = []; changes = []; threads = [] };
  told = [];
}

abbrev t : Times
t = record { at = 10; noted = 11 }

abbrev as_op : Context
as_op = record { actor_session_id = "op"; role = operator }

abbrev as_planner : Context
as_planner = record { actor_session_id = "pl"; role = planner }

abbrev ask : Command → Context → Request
ask c ctx = Request.commands c ctx t

abbrev opening : List Request
opening =
    ask (registers_session "op" none) as_op
    ∷ ask (registers_session "pl" none) as_planner
    ∷ ask (registers_session "wk" none) (record { actor_session_id = "wk"; role = worker })
    ∷ ask (registers_channel "demo") as_op
    ∷ ask (joins "demo" "pl") as_op
    ∷ ask (joins "demo" "wk") as_op
    ∷ ask (joins "demo" "wk") as_planner
    ∷ []

abbrev some_channel : Channel
some_channel = record {
  id = "demo";
  label = none;
  registered_at = 10;
  owner_operator_session_id = some "op";
  lifecycle_state = active;
  closed_at = none;
  broadcast_policy = "all";
  coordination_policy = "open";
}

abbrev some_session : String → SessionRole → Session
some_session id role = record {
  id = id;
  registered_at = 10;
  ended_at = none;
  display_name = none;
  role = some role;
  external_id = none;
  delivery_mode = runtime;
  external_owner = none;
  external_agent_id = none;
}

abbrev member : String → SessionRole → Membership
member id role = record {
  channel_id = "demo";
  session_id = id;
  joined_at = 10;
  left_at = none;
  session_ended_at = none;
  role = some role;
}

abbrev change : ℕ → Option String → Payload → Change
change n channel payload = record {
  cursor = n;
  payload = payload;
  channel_id = channel;
  occurred_at = 11;
}

abbrev noted : List Change
noted =
    change 1 none (session_registered "op" 10 none (some operator) none runtime)
    ∷ change 2 none (session_registered "pl" 10 none (some planner) none runtime)
    ∷ change 3 none (session_registered "wk" 10 none (some worker) none runtime)
    ∷ change 4 (some "demo") (channel_registered "demo" 10 (some "op"))
    ∷ change 5 (some "demo") (membership_joined "demo" "pl" 10 (some planner))
    ∷ change 6 (some "demo") (membership_joined "demo" "wk" 10 (some worker))
    ∷ []

abbrev demo : Repository
demo = record {
  db = record {
    sessions =
        some_session "wk" worker ∷ some_session "pl" planner ∷ some_session "op" operator ∷ [];
    channels = some_channel ∷ [];
    memberships = member "wk" worker ∷ member "pl" planner ∷ [];
    changes = noted;
    threads = [];
  };
  told = noted;
}

-- The operator may not bring the worker in, so six of the seven requests leave a change.
opening_test : run empty opening ≡ demo
unfolding methods
opening_test = refl

empty-IsWellFormed : IsWellFormed empty.db
empty-IsWellFormed = record {
  placed = tt;
  single = (λ c s. omega arith, λ c. omega arith, λ c. omega arith);
}

run-IsWellFormed_example : IsWellFormed (run empty opening).db
run-IsWellFormed_example = run-IsWellFormed empty opening empty-IsWellFormed

run-IsPublished_example : IsPublished (run empty opening)
run-IsPublished_example = run-IsPublished empty opening (record { numbered = tt; heard = refl })

demo-IsWellFormed : IsWellFormed demo.db
demo-IsWellFormed =
    subst (λ (r : Repository). IsWellFormed r.db) opening_test
      (run-IsWellFormed empty opening empty-IsWellFormed)

-- The repository after one more request.
abbrev next : Command → Context → Repository
next c ctx = serve demo (ask c ctx)

-- The planner claims to be the operator.
perform-IsThrown_example :
    IsThrown
      (perform (closes_channel "demo") (record { actor_session_id = "pl"; role = operator }) t demo)
unfolding methods
perform-IsThrown_example =
    perform-IsThrown (closes_channel "demo") (record { actor_session_id = "pl"; role = operator }) t
      demo (some_session "pl" planner) refl refl

-- The worker joins again, which changes nothing.
join_authorized_example :
    is_active_member (next (joins "demo" "wk") as_planner).db "demo" "wk" ≡ true
unfolding methods serve write
join_authorized_example =
    (join_authorized "demo" "wk" as_planner t demo _ _ some_channel (some_session "wk" worker) refl
      refl refl).4

end_session_authorized_example :
    ((as_planner.actor_session_id ≡ "wk")
      ⊎ ((planner ≡ operator) × OperatorReaches demo.db as_planner "wk" (some_session "wk" worker))
      ⊎ ((planner ≡ planner) × PlannerSupervises demo.db as_planner "wk"))
unfolding methods serve write
end_session_authorized_example =
    (end_session_authorized "wk" as_planner t demo _ _ (some_session "wk" worker) demo-IsWellFormed
      refl refl).0

close_channel_authorized_example :
    is_open_channel (next (closes_channel "demo") as_op).db "demo" ≡ false
unfolding methods serve write
close_channel_authorized_example =
    (close_channel_authorized "demo" as_op t demo _ _ some_channel demo-IsWellFormed refl refl).3

leave-left_example :
    (is_active_member demo.db "demo" "wk" ≡ true)
    × (is_active_member (next (leaves "demo" "wk") as_op).db "demo" "wk" ≡ false)
unfolding methods serve write
leave-left_example = leave-left "demo" "wk" as_op t demo _ _ demo-IsWellFormed refl

-- The worker becomes the planner; the old planner is one no more.
update_session_role-handoff_example :
    is_active_member_as (next (updates_role "demo" "wk" planner) as_op).db "demo" "pl" planner
    ≡ false
unfolding methods serve write
update_session_role-handoff_example =
    (update_session_role-handoff "demo" "wk" planner as_op t demo _ _ refl).3 refl "pl"
      (λ e. ground (arith, eq_iff "pl" "wk"))
