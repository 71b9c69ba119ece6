-- ===== src/Store/Channels.antt =====
-- The channel operations of RoomsRepository in roomsd/src/storage/repository.ts.
use wardroom.Base.{
  ℕ, String, Bool, true, false, Option, none, some, ◌∷◌, not, if◌then◌else◌, is_some, ◌===◌,
  update_where,
}
use wardroom.Contracts.{
  active, closed, Channel, LifecycleState, channel_registered, channel_closed, channel_reopened,
  channel_label_updated, channel_broadcast_policy_updated, channel_coordination_policy_updated,
  MutationReceipt, channel_already_exists, unknown_channel, constraint,
}
use wardroom.Store.{
  Database, M, ◌>>=◌, ◌>>◌, require, throw_if, get, put, Times, current_session, current_channel,
  active_in, append_change, unchanged,
}
use wardroom.Store.Sessions.{end_membership}

abbrev pub new_channel : String → Option String → ℕ → Channel
new_channel id owner at = record {
  id = id;
  label = none;
  registered_at = at;
  owner_operator_session_id = owner;
  lifecycle_state = active;
  closed_at = none;
  broadcast_policy = "all";
  coordination_policy = "open";
}

-- `owner_operator_session_id REFERENCES sessions(id)`
abbrev pub known_owner : Database → Option String → Bool
known_owner db none = true
known_owner db (some id) = is_some (current_session db id)

unfoldable pub insert_channel : String → Option String → Times → M MutationReceipt
insert_channel id owner t = do
  db ← get
  throw_if (is_some (current_channel db id)) channel_already_exists
  throw_if (not (known_owner db owner)) constraint
  put (record db { channels = new_channel id owner t.at ∷ db.channels })
  append_change (channel_registered id t.at owner) (some id) t.noted

abbrev pub set_channel : Database → String → (Channel → Channel) → Database
set_channel db id f = record db {
  channels = update_where (λ (c : Channel). c.id === id) f db.channels;
}

abbrev pub close_row : ℕ → Channel → Channel
close_row at c = record c { lifecycle_state = closed; closed_at = some at }

abbrev pub reopen_row : Channel → Channel
reopen_row c = record c { lifecycle_state = active; closed_at = none }

abbrev pub is_closed : LifecycleState → Bool
is_closed active = false
is_closed closed = true

close : Database → String → Times → M MutationReceipt
close db id t = do
  put (record (set_channel db id (close_row t.at)) {
    memberships = update_where (active_in id) (end_membership t.at) db.memberships;
  })
  append_change (channel_closed id t.at) (some id) t.noted

unfoldable pub close_channel : String → Times → M MutationReceipt
unfolding close
close_channel id t = do
  db ← get
  channel ← require (current_channel db id) unknown_channel
  if is_closed channel.lifecycle_state then unchanged else close db id t

reopen : Database → String → Times → M MutationReceipt
reopen db id t = do
  put (set_channel db id reopen_row)
  append_change (channel_reopened id t.at) (some id) t.noted

unfoldable pub reopen_channel : String → Times → M MutationReceipt
unfolding reopen
reopen_channel id t = do
  db ← get
  channel ← require (current_channel db id) unknown_channel
  if is_closed channel.lifecycle_state then reopen db id t else unchanged

-- Equality of nullable texts.
abbrev pub same_label : Option String → Option String → Bool
same_label none none = true
same_label (some s) (some t) = s === t
same_label none (some _) = false
same_label (some _) none = false

relabel : Database → String → Option String → Times → M MutationReceipt
relabel db id label t = do
  put (set_channel db id (λ c. record c { label = label }))
  append_change (channel_label_updated id label) (some id) t.noted

unfoldable pub update_channel_label : String → Option String → Times → M MutationReceipt
unfolding relabel
update_channel_label id label t = do
  db ← get
  channel ← require (current_channel db id) unknown_channel
  if same_label channel.label label then unchanged else relabel db id label t

set_broadcast : Database → String → String → Times → M MutationReceipt
set_broadcast db id policy t = do
  put (set_channel db id (λ c. record c { broadcast_policy = policy }))
  append_change (channel_broadcast_policy_updated id policy) (some id) t.noted

unfoldable pub update_channel_broadcast_policy : String → String → Times → M MutationReceipt
unfolding set_broadcast
update_channel_broadcast_policy id policy t = do
  db ← get
  channel ← require (current_channel db id) unknown_channel
  if channel.broadcast_policy === policy then unchanged else set_broadcast db id policy t

set_coordination : Database → String → String → Times → M MutationReceipt
set_coordination db id policy t = do
  put (set_channel db id (λ c. record c { coordination_policy = policy }))
  append_change (channel_coordination_policy_updated id policy) (some id) t.noted

unfoldable pub update_channel_coordination_policy : String → String → Times → M MutationReceipt
unfolding set_coordination
update_channel_coordination_policy id policy t = do
  db ← get
  channel ← require (current_channel db id) unknown_channel
  if channel.coordination_policy === policy then unchanged else set_coordination db id policy t
