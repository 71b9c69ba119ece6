-- ===== src/Application/Tests/Registering.antt =====
-- Registrations of a mailbox that is bound to an agent of another process.
use wardroom.Base.{◌≡◌, refl, true, none, some, [], ◌∷◌, ◌++◌, trim, trim_end}
use wardroom.Contracts.{worker, runtime, log, Session}
use wardroom.Store.{Repository, write, is_active_member, current_session}
use wardroom.Store.Registering.{
  Registration, register_session_in, settle_session, bind_external_id, change_delivery, bind_owner,
  ensure_member,
}
use wardroom.Store.Registering.Binding.{Kept, Agrees, register_session_in-bound}
use wardroom.Store.Registering.Phantom.{delivery_change, register_session_in-heard}
use wardroom.Application.Tests.{methods, demo, t}

registrations : Unit {0}
unfolding methods register_session_in settle_session bind_external_id change_delivery bind_owner
    ensure_member trim trim_end write
registrations = tt

abbrev mailbox : Registration
mailbox = record {
  channel_id = "demo";
  session_id = "box";
  role = worker;
  external_id = some "caller";
  delivery_mode = some log;
  external_owner = some " host ";
  external_agent_id = some "agent";
}

abbrev boxed : Repository
boxed = write (register_session_in mailbox t t) demo

abbrev box : Session
box = record {
  id = "box";
  registered_at = 10;
  ended_at = none;
  display_name = none;
  role = some worker;
  external_id = some "caller";
  delivery_mode = log;
  external_owner = some "host";
  external_agent_id = some "agent";
}

boxed_test : current_session boxed.db "box" ≡ some box
unfolding registrations
boxed_test = refl

-- The same caller again, who asks for the other delivery.
abbrev again : Registration
again = record mailbox { delivery_mode = some runtime }

abbrev after : Repository
after = write (register_session_in again t t) boxed

abbrev rerouted : Session
rerouted = record box { delivery_mode = runtime }

register_session_in-bound_example :
    Agrees box.external_id again.external_id
    × Kept box.external_id rerouted.external_id
    × Kept box.external_owner rerouted.external_owner
    × (rerouted.role ≡ box.role)
    × (current_session after.db "box" ≡ some rerouted)
    × (is_active_member after.db "demo" "box" ≡ true)
unfolding registrations
register_session_in-bound_example =
    register_session_in-bound again t t boxed _ box
      (record { session = rerouted; membership = _; idempotent = true }) refl refl

-- An agent of another host asks.
abbrev thief : Registration
thief = record mailbox {
  external_id = none;
  delivery_mode = some runtime;
  external_owner = some "other";
}

register_session_in-heard_example :
    ((write (register_session_in thief t t) boxed).db ≡ boxed.db)
    × ((write (register_session_in thief t t) boxed).told
        ≡ boxed.told ++ delivery_change boxed "box" runtime t ∷ [])
unfolding registrations
register_session_in-heard_example =
    register_session_in-heard thief t t boxed _ box runtime "other" "agent" "host" refl refl refl
      refl refl refl refl refl refl
