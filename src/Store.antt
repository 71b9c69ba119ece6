-- ===== src/Store.antt =====
-- The state of roomsd/src/storage/repository.ts: the tables, the transaction monad, `appendChange`
-- and the queries that the operations share. The operations stand in the modules below.
pub mod Sessions
pub mod Channels
pub mod Memberships
pub mod Controls
pub mod Messages
pub mod Threads
pub mod Replies
pub mod Reading
pub mod Threading
pub mod Retrying
pub mod Resolving
pub mod Registering
pub mod Feed
pub mod Counts
pub mod Leaving
pub mod Wf
use wardroom.Base.{
  ℕ, suc, ◌+◌, max, String, ◌≡◌, refl, ◌⊎◌, inl, inr, Bool, true, false, ◌&&◌, not, Option, none,
  some, List, [], ◌∷◌, ◌++◌, map, if◌then◌else◌, is_yes, is_some, ◌===◌, any, select, first, length,
  text_leb,
}
use wardroom.Contracts.{
  SessionRole, has_role, LifecycleState, active, closed, Session, Channel, Membership, Change,
  Payload, ThreadLifecycle, MutationReceipt, ErrorCode, constraint,
}

-- `changes` is in cursor order.
pub record Database : Type 0 where
  pub sessions : List Session
  pub channels : List Channel
  pub memberships : List Membership
  pub changes : List Change
  pub threads : List ThreadLifecycle

-- `told` is what the change listeners have been called with, newest last.
pub record Repository : Type 0 where
  pub db : Database
  pub open db use *
  pub told : List Change

-- A thrown error leaves no database to go on with, but the listeners have heard what they heard.
pub data Outcome {ℓ} (A : Type ℓ) : Type ℓ where
  done : A → Repository → Outcome A
  thrown : ErrorCode → List Change → Outcome A

abbrev pub M {ℓ} : Type ℓ → Type ℓ
M A = Repository → Outcome A

pub Outcome-cases {ℓ} :
    {A : Type ℓ} (o : Outcome A)
    → ((a : A) × (r : Repository) × (o ≡ done a r))
      ⊎ ((e : ErrorCode) × (told : List Change) × (o ≡ thrown e told))
Outcome-cases (done a r) = inl (a, r, refl)
Outcome-cases (thrown e told) = inr (e, told, refl)

infixl 5 ◌>>=◌ ◌>>◌
abbrev pub ◌>>=◌ {ℓ κ} : {A : Type ℓ} {B : Type κ} → M A → (A → M B) → M B
◌>>=◌ m f r = elim (m r) [ done a r' ↦ f a r' | thrown e told ↦ thrown e told ]

abbrev pub ◌>>◌ {ℓ} : {B : Type ℓ} → M (Unit {0}) → M B → M B
m >> k = m >>= λ _. k

abbrev pub return {ℓ} : {A : Type ℓ} → A → M A
return a r = done a r

abbrev pub throw {ℓ} : {A : Type ℓ} → ErrorCode → M A
throw e r = thrown e r.told

-- `if (bad) throw new RoomsCommandError(e)`
abbrev pub throw_if : Bool → ErrorCode → M (Unit {0})
throw_if true e r = thrown e r.told
throw_if false e r = done tt r

-- A value that must be there.
abbrev pub require {ℓ} : {A : Type ℓ} → Option A → ErrorCode → M A
require none e = throw e
require (some a) e = λ r. done a r

abbrev pub get : M Database
get r = done r.db r

abbrev pub put : Database → M (Unit {0})
put db r = done tt (record r { db = db })

-- `write` at depth 0: commit, or roll the tables back. What the listeners heard stays heard.
abbrev pub settle {ℓ} : {A : Type ℓ} → Repository → Outcome A → Repository
settle r (done a r') = r'
settle r (thrown e told) = record r { told = told }

unfoldable pub write {ℓ} : {A : Type ℓ} → M A → Repository → Repository
write m r = settle r (m r)

-- The readings of `now()` in one operation: its own, and that of `appendChange`.
pub record Times : Type 0 where
  pub at : ℕ
  pub noted : ℕ

abbrev pub latest_cursor : List Change → ℕ
latest_cursor [] = 0
latest_cursor (c ∷ cs) = max c.cursor (latest_cursor cs)

abbrev pub current_session : Database → String → Option Session
current_session db id = first (λ (s : Session). s.id === id) db.sessions

abbrev pub current_channel : Database → String → Option Channel
current_channel db id = first (λ (c : Channel). c.id === id) db.channels

-- `left_at IS NULL AND session_ended_at IS NULL`
abbrev pub is_active : Membership → Bool
is_active m = not (is_some m.left_at) && not (is_some m.session_ended_at)

abbrev pub active_in : String → Membership → Bool
active_in channel m = m.channel_id === channel && is_active m

abbrev pub active_of : String → Membership → Bool
active_of session m = m.session_id === session && is_active m

abbrev pub active_row : String → String → Membership → Bool
active_row channel session m = m.channel_id === channel && active_of session m

unfoldable pub is_active_member : Database → String → String → Bool
is_active_member db channel session = any (active_row channel session) db.memberships

unfoldable pub is_active_member_as : Database → String → String → SessionRole → Bool
is_active_member_as db channel session role =
    any (λ (m : Membership). active_row channel session m && has_role role m.role) db.memberships

abbrev pub holds_role : String → SessionRole → Membership → Bool
holds_role channel role m = active_in channel m && has_role role m.role

abbrev pub holds_role_beside : String → SessionRole → String → Membership → Bool
holds_role_beside channel role session m =
    holds_role channel role m && not (m.session_id === session)

abbrev pub count_where : (Membership → Bool) → List Membership → ℕ
count_where p [] = 0
count_where p (m ∷ ms) = if p m then suc (count_where p ms) else count_where p ms

unfoldable pub active_membership_count : Database → String → SessionRole → ℕ
active_membership_count db channel role = count_where (holds_role channel role) db.memberships

unfoldable pub active_membership_count_except : Database → String → SessionRole → String → ℕ
active_membership_count_except db channel role session =
    count_where (holds_role_beside channel role session) db.memberships

-- `SELECT DISTINCT … ORDER BY` over one text column.
insert_distinct : String → List String → List String
insert_distinct s [] = s ∷ []
insert_distinct s (t ∷ ts) =
    if s === t then t ∷ ts else if text_leb s t then s ∷ t ∷ ts else t ∷ insert_distinct s ts

sort_distinct : List String → List String
sort_distinct [] = []
sort_distinct (s ∷ ss) = insert_distinct s (sort_distinct ss)

unfoldable pub active_membership_channels : Database → String → List String
unfolding sort_distinct insert_distinct
active_membership_channels db session =
    sort_distinct
      (map (λ (m : Membership). m.channel_id) (select (active_of session) db.memberships))

-- `changes.channel_id REFERENCES channels(id)`
abbrev pub known_channel : Database → Option String → Bool
known_channel db none = true
known_channel db (some id) = is_some (current_channel db id)

unfoldable pub append_change : Payload → Option String → ℕ → M MutationReceipt
append_change payload channel noted r =
    let change : Change = record {
      cursor = suc (latest_cursor r.changes);
      payload = payload;
      channel_id = channel;
      occurred_at = noted;
    } in
    if known_channel r.db channel
    then done
        (record {
          cursor = suc (latest_cursor r.changes);
          did_append = true;
          changes = change ∷ [];
        })
        (record {
          db = record r.db { changes = r.changes ++ change ∷ [] };
          told = r.told ++ change ∷ [];
        })
    else thrown constraint r.told

-- `{ cursor: this.latestCursor(), didAppend: false, changes: [] }`
abbrev pub unchanged : M MutationReceipt
unchanged r = done (record { cursor = latest_cursor r.changes; did_append = false; changes = [] }) r
