-- ===== src/Store/Registering/Phantom.antt =====
-- A registration that is refused after the listeners heard of its change: `registerSession`, `write`
-- and `appendChange` of roomsd/src/storage/repository.ts.
use wardroom.Base.{suc, String, ◌≡◌, false, Option, none, some, [], ◌∷◌, ◌++◌, arith, ◌===◌}
use wardroom.Contracts.{
  Channel, Session, SessionDeliveryMode, Change, session_delivery_updated,
  external_provenance_already_bound,
}
use wardroom.Store.{
  Repository, thrown, Times, current_session, current_channel, append_change, latest_cursor, write,
}
use wardroom.Store.Registering.{
  trimmed, filled, same_mode, Registration, register_session_in, settle_session, bind_external_id,
  change_delivery, bind_owner,
}

abbrev pub delivery_change : Repository → String → SessionDeliveryMode → Times → Change
delivery_change r id mode t = record {
  cursor = suc (latest_cursor r.changes);
  payload = session_delivery_updated id mode;
  channel_id = none;
  occurred_at = t.noted;
}

settle_session-refused :
    (input : Registration) (t : Times) (r : Repository) (s : Session) (mode : SessionDeliveryMode)
    (owner bound : String) (agent : Option String)
    → filled input.external_id ≡ none
    → input.delivery_mode ≡ some mode
    → same_mode s.delivery_mode mode ≡ false
    → filled s.external_owner ≡ some bound
    → (bound === owner) ≡ false
    → settle_session input (some owner) agent t (some s) r
      ≡ thrown external_provenance_already_bound
          (r.told ++ delivery_change r input.session_id mode t ∷ [])
unfolding settle_session bind_external_id change_delivery bind_owner append_change
settle_session-refused input t r s mode owner bound agent h₁ h₂ h₃ h₄ h₅ = ground arith

--When the registration of an existing session asks for another delivery mode and for another
-- external owner than the one it is bound to, and for no external caller, the tables stay as they
-- were, but the listeners have heard that the delivery mode was updated.
pub register_session_in-heard :
    (input : Registration) (t u : Times) (r : Repository) (channel : Channel) (s : Session)
    (mode : SessionDeliveryMode) (owner agent bound : String)
    → current_channel r.db input.channel_id ≡ some channel
    → current_session r.db input.session_id ≡ some s
    → trimmed input.external_owner ≡ some owner
    → trimmed input.external_agent_id ≡ some agent
    → filled input.external_id ≡ none
    → input.delivery_mode ≡ some mode
    → same_mode s.delivery_mode mode ≡ false
    → filled s.external_owner ≡ some bound
    → (bound === owner) ≡ false
    → ((write (register_session_in input t u) r).db ≡ r.db)
      × ((write (register_session_in input t u) r).told
          ≡ r.told ++ delivery_change r input.session_id mode t ∷ [])
unfolding register_session_in write
register_session_in-heard input t u r channel s mode owner agent bound h₁ h₂ h₃ h₄ h₅ h₆ h₇ h₈ h₉ =
    let refused = settle_session-refused input t r s mode owner bound (some agent) h₅ h₆ h₇ h₈ h₉ in
    (ground arith, ground arith)
