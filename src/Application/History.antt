-- ===== src/Application/History.antt =====
-- Sequences of requests, each one transaction.
use wardroom.Base.{String, Option, ◌≡◌, sym, subst, List, [], ◌∷◌, arith}
use wardroom.Contracts.{CanonicalMessageCommitInput, ThreadState, MutationReceipt}
use wardroom.Store.{M, ◌>>=◌, return, Repository, Outcome, done, thrown, Times, settle, write}
use wardroom.Store.Feed.{Appends, IsNumbered, IsNumbered-append, latest-IsNumbered}
use wardroom.Store.Threads.{set_thread_state}
use wardroom.Store.Reading.{
  commit_message-Sends, set_thread_state-Changes, KeepsRows, commit_message-KeepsRows,
  set_thread_state-KeepsRows, IsWellFormed-SameRows,
}
use wardroom.Store.Threading.{IsThreaded, Threads, Sound-Threads}
use wardroom.Store.Threading.Sending.{commit_message-Threads}
use wardroom.Store.Wf.{IsWellFormed, Keeps}
use wardroom.Application.Access.{Context}
use wardroom.Application.{Command, perform, commit_message_as}
use wardroom.Application.Feed.{perform-Sound}
use wardroom.Application.Seats.{perform-Keeps}

-- What the service asks of the store: a command of a caller, a message, or a thread to resolve or
-- reopen.
pub data Request : Type 0 where
  commands : Command → Context → Times → Request
  sends : CanonicalMessageCommitInput → (id : String) → Times → Request
  sets_thread : (root actor : String) → ThreadState → (channel_id : Option String) → Times → Request

unfoldable pub answer : Request → M MutationReceipt
answer (commands c ctx t) = perform c ctx t
answer (sends input id t) = commit_message_as input id t >>= λ result. return result.receipt
answer (sets_thread root actor state channel t) =
    set_thread_state root actor state channel t >>= λ result. return result.receipt

answer-Appends : (q : Request) (r : Repository) → Appends r (answer q r)
unfolding answer commit_message_as
answer-Appends (commands c ctx t) r = ground (arith, perform-Sound c ctx t r)
answer-Appends (sends input id t) r = ground (arith, commit_message-Sends input id t r)
answer-Appends (sets_thread root actor state channel t) r =
    ground (arith, set_thread_state-Changes root actor state channel t r)

-- Neither messages nor threads touch the rows of sessions, channels and memberships.
KeepsRows-Keeps :
    (r : Repository) (o : Outcome MutationReceipt) → KeepsRows r o → IsWellFormed r.db → Keeps o
KeepsRows-Keeps r (done receipt r') same w = IsWellFormed-SameRows r.db r'.db same w
KeepsRows-Keeps r (thrown e told) same w = tt

answer-Keeps : (q : Request) (r : Repository) → IsWellFormed r.db → Keeps (answer q r)
unfolding answer commit_message_as
answer-Keeps (commands c ctx t) r w = perform-Keeps c ctx t r w
answer-Keeps (sends input id t) r w =
    KeepsRows-Keeps r _ (ground (arith, commit_message-KeepsRows input id t r)) w
answer-Keeps (sets_thread root actor state channel t) r w =
    KeepsRows-Keeps r _ (ground (arith, set_thread_state-KeepsRows root actor state channel t r)) w

answer-Threads : (q : Request) (r : Repository) → IsThreaded r.changes → Threads (answer q r)
unfolding answer commit_message_as
answer-Threads (commands c ctx t) r w = Sound-Threads r _ (perform-Sound c ctx t r) w
answer-Threads (sends input id t) r w = ground (arith, commit_message-Threads input id t r w)
answer-Threads (sets_thread root actor state channel t) r w =
    Sound-Threads r _ (ground (arith, set_thread_state-Changes root actor state channel t r)) w

unfoldable pub serve : Repository → Request → Repository
serve r q = write (answer q) r

unfoldable pub run : Repository → List Request → Repository
unfolding serve write
run r [] = r
run r (q ∷ qs) = run (serve r q) qs

settle-IsWellFormed :
    (r : Repository) (o : Outcome MutationReceipt)
    → Keeps o
    → IsWellFormed r.db
    → IsWellFormed (settle r o).db
settle-IsWellFormed r (done receipt r') k w = k
settle-IsWellFormed r (thrown e told) k w = w

--Whatever commands, messages and thread requests are served, in whatever order, well-formed
-- tables stay well formed: no session is twice an active member of a channel, no channel has two
-- active planners or two active reviewers, and every active member is a live session in an open
-- channel.
pub run-IsWellFormed :
    (r : Repository) (qs : List Request) → IsWellFormed r.db → IsWellFormed (run r qs).db
unfolding run write serve
run-IsWellFormed r [] w = w
run-IsWellFormed r (q ∷ qs) w =
    run-IsWellFormed (serve r q) qs (settle-IsWellFormed r (answer q r) (answer-Keeps q r w) w)

-- The table of changes is numbered from 1, and the listeners have heard all of it in order.
pub record IsPublished (r : Repository) : Type 0 where
  pub numbered : IsNumbered 0 r.changes
  pub heard : r.told ≡ r.changes

settle-IsPublished :
    (r : Repository) (o : Outcome MutationReceipt)
    → Appends r o
    → IsPublished r
    → IsPublished (settle r o)
settle-IsPublished r (thrown e told) s p = record { numbered = p.numbered; heard = ground arith }
settle-IsPublished r (done receipt r') s p = record {
  numbered = subst (IsNumbered 0) (sym s.feed) (
      IsNumbered-append 0 r.changes receipt.changes p.numbered (
        subst (λ n. IsNumbered n receipt.changes)
          (omega (arith, latest-IsNumbered r.changes p.numbered)) s.numbered));
  heard = ground arith;
}

--Whatever commands, messages and thread requests are served, the cursors in the table of changes
-- stay 1, 2, 3 and so on without a gap, and the listeners have heard exactly the committed
-- changes in that order, if it was so at the start.
pub run-IsPublished : (r : Repository) (qs : List Request) → IsPublished r → IsPublished (run r qs)
unfolding run write serve
run-IsPublished r [] p = p
run-IsPublished r (q ∷ qs) p =
    run-IsPublished (serve r q) qs (settle-IsPublished r (answer q r) (answer-Appends q r) p)

settle-Threads :
    (r : Repository) (o : Outcome MutationReceipt)
    → Threads o
    → IsThreaded r.changes
    → IsThreaded (settle r o).changes
settle-Threads r (done receipt r') k w = k
settle-Threads r (thrown e told) k w = w

--Whatever commands, messages and thread requests are served, a stored message stands under its
-- own channel, a message that is no reply has no thread root, and the thread root of a reply is a
-- stored message of the same channel that is no reply itself, if it was so at the start.
pub run-IsThreaded :
    (r : Repository) (qs : List Request) → IsThreaded r.changes → IsThreaded (run r qs).changes
unfolding run write serve
run-IsThreaded r [] w = w
run-IsThreaded r (q ∷ qs) w =
    run-IsThreaded (serve r q) qs (settle-Threads r (answer q r) (answer-Threads q r w) w)
