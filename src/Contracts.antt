-- ===== src/Contracts.antt =====
-- The types of roomsd/src/domain/contracts.ts. An instant is the number of milliseconds that the
-- source keeps as ISO text, whose order as text is the order of instants. A cursor is its number.
-- Payloads, which the source keeps as JSON, are one constructor for each kind of change.
use wardroom.Base.{ℕ, String, Bool, false, Option, some, none, List, is_yes}

pub data SessionRole : Type 0 where
  operator planner worker reviewer : SessionRole

unfoldable pub role_discrete : Discrete SessionRole
role_discrete = hlevel

-- `role === wanted`, for a role that may be null.
abbrev pub has_role : SessionRole → Option SessionRole → Bool
has_role wanted none = false
has_role wanted (some role) = is_yes (role_discrete role wanted)

pub data SessionDeliveryMode : Type 0 where
  runtime log : SessionDeliveryMode

pub data LifecycleState : Type 0 where
  active closed : LifecycleState

pub record Session : Type 0 where
  pub id : String
  pub registered_at : ℕ
  pub ended_at : Option ℕ
  pub display_name : Option String
  pub role : Option SessionRole
  pub external_id : Option String
  pub delivery_mode : SessionDeliveryMode
  pub external_owner : Option String
  pub external_agent_id : Option String

pub record Channel : Type 0 where
  pub id : String
  pub label : Option String
  pub registered_at : ℕ
  pub owner_operator_session_id : Option String
  pub lifecycle_state : LifecycleState
  pub closed_at : Option ℕ
  pub broadcast_policy : String
  pub coordination_policy : String

pub record Membership : Type 0 where
  pub channel_id : String
  pub session_id : String
  pub joined_at : ℕ
  pub left_at : Option ℕ
  pub session_ended_at : Option ℕ
  pub role : Option SessionRole

pub data ThreadState : Type 0 where
  opened resolved : ThreadState

-- `opened` is the state "open".
pub record ThreadLifecycle : Type 0 where
  pub thread_root_event_id : String
  pub channel_id : String
  pub state : ThreadState
  pub resolved_at : Option ℕ
  pub resolved_by_session_id : Option String
  pub reopened_at : Option ℕ
  pub reopened_by_session_id : Option String
  pub updated_at : Option ℕ

pub data DeliveryStatus : Type 0 where
  delivered queued undeliverable : DeliveryStatus

-- What the store reads of a message's target; `sessionID` is the spelling of older clients.
pub record Target : Type 0 where
  pub kind : String
  pub session_id : Option String
  pub legacy_session_id : Option String
  pub session_ids : Option (List String)

-- A property that should be a text: not there or null, a text, or a value of another type.
pub data Field : Type 0 where
  absent : Field
  text : String → Field
  other : Field

-- What the store reads of a correlation object; `rest` stands for its other properties.
pub record Correlation : Type 0 where
  pub deduplication_key : Option String
  pub reply_to_event_id : Field
  pub rest : String

pub record CanonicalMessageCommitInput : Type 0 where
  pub channel_id : Option String
  pub sender_session_id : String
  pub body : String
  pub target : Option Target
  pub reply_to_event_id : Field
  pub correlation : Option Correlation
  pub delivery_statuses : Option (List (String × DeliveryStatus))
  pub attachment_references : Option (List String)

-- A recipient that a target leaves out is `undefined`.
pub record MessageEvent : Type 0 where
  pub id : String
  pub channel_id : Option String
  pub sender_session_id : String
  pub body : String
  pub target : Option Target
  pub attachment_references : List String
  pub delivered_recipient_session_ids : List (Option String)
  pub recipient_statuses : List (String × DeliveryStatus)
  pub correlation : Option Correlation
  pub reply_to_event_id : Option String
  pub thread_root_event_id : Option String
  pub occurred_at : ℕ

pub data Payload : Type 0 where
  message_sent : MessageEvent → Payload
  thread_resolved thread_reopened : ThreadLifecycle → Payload
  session_registered :
      (id : String) (registered_at : ℕ) (display_name : Option String) (role : Option SessionRole)
      (external_id : Option String) (delivery_mode : SessionDeliveryMode)
      → Payload
  session_delivery_updated : (id : String) (delivery_mode : SessionDeliveryMode) → Payload
  session_ended :
      (session_id : String) (ended_at : ℕ) (memberships : List (String × Option SessionRole))
      → Payload
  session_reactivated : (session_id : String) (reactivated_at : ℕ) → Payload
  session_role_updated :
      (channel_id session_id : String) (previous_role : Option SessionRole) (role : SessionRole)
      (replaced_planner_session_ids : List String)
      → Payload
  channel_registered :
      (id : String) (registered_at : ℕ) (owner_operator_session_id : Option String) → Payload
  channel_closed : (id : String) (closed_at : ℕ) → Payload
  channel_reopened : (id : String) (reopened_at : ℕ) → Payload
  channel_label_updated : (id : String) (label : Option String) → Payload
  channel_broadcast_policy_updated : (id : String) (broadcast_policy : String) → Payload
  channel_coordination_policy_updated : (id : String) (coordination_policy : String) → Payload
  membership_joined :
      (channel_id session_id : String) (joined_at : ℕ) (role : Option SessionRole) → Payload
  membership_left :
      (channel_id session_id : String) (left_at : ℕ) (role : Option SessionRole) → Payload
  control_committed :
      (id channel_id sender_session_id kind payload request_id : String) (occurred_at : ℕ) → Payload

pub record Change : Type 0 where
  pub cursor : ℕ
  pub payload : Payload
  pub channel_id : Option String
  pub occurred_at : ℕ

pub record MutationReceipt : Type 0 where
  pub cursor : ℕ
  pub did_append : Bool
  pub changes : List Change

-- The codes of `RoomsCommandError` and `RoomsStoreError`; `constraint` is SQLite's own refusal.
pub data ErrorCode : Type 0 where
  unauthorized unauthorized_actor unknown_channel unknown_session channel_closed : ErrorCode
  planner_authorization_required owner_authorization_required already_member : ErrorCode
  not_member invalid_role invalid_broadcast_policy invalid_coordination_policy : ErrorCode
  control_kind_required request_id_required : ErrorCode
  session_already_exists channel_already_exists channel_not_found session_not_found : ErrorCode
  operator_session_not_recoverable external_id_already_bound : ErrorCode
  external_provenance_already_bound invalid_external_provenance constraint : ErrorCode
  sender_session_id_required empty_message unknown_message not_thread_root : ErrorCode
  thread_channel_required invalid_reply_to_event_id invalid_reply_metadata stale_reply : ErrorCode
  invalid_reply_parent thread_already_resolved : ErrorCode
