-- ===== src/Transport/Reach.antt =====
-- What the threads do to a transport as steps, in any order: what holds of the status and of what was
-- sent, whoever acts when. Most operations are one critical section and one step; `shutdown` and the
-- answer to a shutdown message are two each, since the producer, which takes no message lock, may
-- close the transport in between.
use xrtransport.Common.{
  ℕ, ◌≤◌, ◌<◌, ◌≡◌, ◌≢◌, refl, sym, subst, ◌∙◌, ◌⊎◌, inl, inr, List, [], ◌∷◌, ◌++◌, arith,
}
use xrtransport.Transport.Frame.{Message, msg_shutdown}
use xrtransport.Transport.State.{
  Status, created, opened, write_closed, closed, ok, Transport, new_transport, start, send,
  register_handler, unregister_handler, clear_handlers, stop_threads, close, shutdown_begin,
  shutdown_end, enqueue, start_message, flush,
}
use xrtransport.Transport.Dispatch.{respond_at}

-- Whether a thread holds the message lock in the middle of `shutdown`, or of the answer to a
-- shutdown message.
pub data Lock : Type 0 where
  free shutting answering : Lock

-- A step of a user or a handler, of the producer, or of whoever takes a message off the queue. Users
-- send no shutdown message but by `shutdown`.
pub data Step (t u : Transport) : Lock → Lock → Type 0 where
  starts : {l : Lock} → start t ≡ ok u → Step t u l l
  sends : (m : Message) → m.header ≢ msg_shutdown → send m t ≡ ok u → Step t u free free
  begins_shutdown : shutdown_begin t ≡ ok u → Step t u free shutting
  ends_shutdown : shutdown_end t ≡ u → Step t u shutting free
  begins_answer : respond_at t.status t ≡ ok u → Step t u free answering
  ends_answer : stop_threads t ≡ u → Step t u answering free
  closes : {l : Lock} → close t ≡ u → Step t u l l
  registers : (header handler : ℕ) → register_handler header handler t ≡ u → Step t u free free
  unregisters : (header : ℕ) → unregister_handler header t ≡ u → Step t u free free
  clears : clear_handlers t ≡ u → Step t u free free
  enqueues : {l : Lock} (m : Message) → enqueue m t ≡ u → Step t u l l
  dequeues :
      {l : Lock} (m : Message) (q : List Message)
      → t.queue ≡ m ∷ q
      → record t { queue = q } ≡ u
      → Step t u l l

pub data Reach (t : Transport) (l : Lock) : Transport → Lock → Type 0 where
  here : Reach t l t l
  next : {u v : Transport} {m n : Lock} → Reach t l u m → Step u v m n → Reach t l v n

-- How far a transport is: writing is closed in the last two statuses.
abbrev pub stage : Status → ℕ
stage created = 0
stage opened = 1
stage write_closed = 2
stage closed = 2

abbrev pub NoShutdown : List Message → Type 0
NoShutdown [] = Unit
NoShutdown (m ∷ ms) = (m.header ≢ msg_shutdown) × NoShutdown ms

-- Nothing was sent behind a shutdown message, and once one was sent the transport sends no more: its
-- writing is closed, or a thread that is about to close it holds the lock.
pub record IsOrderly (t : Transport) (l : Lock) : Type 0 where
  pub fresh : (1 ≤ stage t.status) ⊎ (t.sent ≡ [])
  pub orderly :
      NoShutdown t.sent
      ⊎ ((ms : List Message) × (bye : Message) × (t.sent ≡ ms ++ bye ∷ [])
          × NoShutdown ms
          × (bye.header ≡ msg_shutdown)
          × ((l ≢ free) ⊎ (1 < stage t.status)))

NoShutdown-snoc :
    (ms : List Message) (m : Message)
    → m.header ≢ msg_shutdown
    → NoShutdown ms
    → NoShutdown (ms ++ m ∷ [])
NoShutdown-snoc [] m h n = (h, tt)
NoShutdown-snoc (x ∷ ms) m h n = (n.0, NoShutdown-snoc ms m h n.1)

-- A transport that was started stays so, and writing that is closed stays closed; what was sent stays
-- sent.
pub record Grows (t u : Transport) : Type 0 where
  pub forward : stage t.status ≤ stage u.status
  pub sent_more : (ms : List Message) × (u.sent ≡ t.sent ++ ms) × ((stage t.status ≤ 1) ⊎ (ms ≡ []))

-- What a step does to the status, to what was sent and to the lock.
data Effect (t u : Transport) : Lock → Lock → Type 0 where
  keeps : {l : Lock} → u.status ≡ t.status → u.sent ≡ t.sent → Effect t u l l
  holds : u.status ≡ t.status → u.sent ≡ t.sent → Effect t u free answering
  opens : {l : Lock} → t.status ≡ created → u.status ≡ opened → u.sent ≡ t.sent → Effect t u l l
  writes :
      (m : Message)
      → m.header ≢ msg_shutdown
      → t.status ≡ opened
      → u.status ≡ opened
      → u.sent ≡ t.sent ++ m ∷ []
      → Effect t u free free
  ends :
      {n : Lock} (bye : Message)
      → n ≢ free
      → bye.header ≡ msg_shutdown
      → t.status ≡ opened
      → u.status ≡ opened
      → u.sent ≡ t.sent ++ bye ∷ []
      → Effect t u free n
  stops : {l n : Lock} → stage u.status ≡ 2 → u.sent ≡ t.sent → Effect t u l n

abbrev goodbye : Message
goodbye = record { header = msg_shutdown; payload = [] }

begins_answer-Effect :
    (s : Status) (t u : Transport)
    → t.status ≡ s
    → respond_at s t ≡ ok u
    → Effect t u free answering
unfolding respond_at start_message flush
begins_answer-Effect opened t u h e = ends goodbye (λ q. cc) refl h (ground arith) (ground arith)
begins_answer-Effect created t u h e = holds (ground arith) (ground arith)
begins_answer-Effect write_closed t u h e = holds (ground arith) (ground arith)
begins_answer-Effect closed t u h e = holds (ground arith) (ground arith)

Step-Effect : {t u : Transport} {l n : Lock} → Step t u l n → Effect t u l n
unfolding start send shutdown_begin shutdown_end stop_threads close register_handler
    unregister_handler clear_handlers enqueue
Step-Effect (starts e) = opens (ground arith) (ground arith) (ground arith)
Step-Effect (sends m n e) = writes m n (ground arith) (ground arith) (ground arith)
Step-Effect (begins_shutdown e) =
    ends goodbye (λ q. cc) refl (ground arith) (ground arith) (ground arith)
Step-Effect (ends_shutdown e) = stops (ground arith) (ground arith)
Step-Effect {t} {u} (begins_answer e) = begins_answer-Effect t.status t u refl e
Step-Effect (ends_answer e) = stops (ground arith) (ground arith)
Step-Effect (closes e) = stops (ground arith) (ground arith)
Step-Effect (registers k h e) = keeps (ground arith) (ground arith)
Step-Effect (unregisters k e) = keeps (ground arith) (ground arith)
Step-Effect (clears e) = keeps (ground arith) (ground arith)
Step-Effect (enqueues m e) = keeps (ground arith) (ground arith)
Step-Effect (dequeues m q e f) = keeps (ground arith) (ground arith)

stage_bound : (s : Status) → stage s ≤ 2
stage_bound created = omega arith
stage_bound opened = omega arith
stage_bound write_closed = omega arith
stage_bound closed = omega arith

-- An orderly transport that is open, with a free lock, has sent no shutdown message.
open_none : (t : Transport) → IsOrderly t free → t.status ≡ opened → NoShutdown t.sent
open_none t v o = elim v.orderly [
  | inl n ↦ n
  | inr (ms, bye, _, _, _, inl l) ↦ absurd (l refl)
  | inr (ms, bye, _, _, _, inr r) ↦ absurd (ground arith)
]

same_sent :
    (t u : Transport) (l n : Lock)
    → IsOrderly t l
    → u.sent ≡ t.sent
    → stage t.status ≤ stage u.status
    → (l ≢ free → (n ≢ free) ⊎ (1 < stage u.status))
    → IsOrderly u n
same_sent t u l n v w r f = record {
  fresh = elim v.fresh [ inl k ↦ inl (omega arith) | inr z ↦ inr (w ∙ z) ];
  orderly = elim v.orderly [
    | inl k ↦ inl (subst NoShutdown (sym w) k)
    | inr (ms, bye, e, k, b, inl d) ↦ inr (ms, bye, w ∙ e, k, b, f d)
    | inr (ms, bye, e, k, b, inr d) ↦ inr (ms, bye, w ∙ e, k, b, inr (omega arith))
  ];
}

Effect-IsOrderly : {t u : Transport} {l n : Lock} → Effect t u l n → IsOrderly t l → IsOrderly u n
Effect-IsOrderly {t} {u} {l} (keeps s w) v = same_sent t u l l v w (ground arith) inl
Effect-IsOrderly {t} {u} (holds s w) v =
    same_sent t u free answering v w (ground arith) (λ f. absurd (f refl))
Effect-IsOrderly {t} {u} {l} (opens c o w) v = same_sent t u l l v w (ground arith) inl
Effect-IsOrderly {t} {u} (writes m n o o' w) v = record {
  fresh = inl (ground arith);
  orderly = inl (subst NoShutdown (sym w) (NoShutdown-snoc t.sent m n (open_none t v o)));
}
Effect-IsOrderly {t} {u} (ends bye l n o o' w) v = record {
  fresh = inl (ground arith);
  orderly = inr (t.sent, bye, w, open_none t v o, n, inl l);
}
Effect-IsOrderly {t} {u} {l} {n} (stops s w) v =
    same_sent t u l n v w (omega (arith, stage_bound t.status, s)) (λ f. inr (omega (arith, s)))

Reach-IsOrderly :
    {t : Transport} {l : Lock} {u : Transport} {n : Lock}
    → IsOrderly t l
    → Reach t l u n
    → IsOrderly u n
Reach-IsOrderly v here = v
Reach-IsOrderly v (next r st) = Effect-IsOrderly (Step-Effect st) (Reach-IsOrderly v r)

-- Over any sequence of steps from a new transport, at most one shutdown message is sent, as the last
-- message, and then the status is no longer open, once the thread that sent it has released the
-- message lock.
pub new_transport-IsOrderly :
    {t : Transport} {l : Lock} → Reach new_transport free t l → IsOrderly t l
unfolding new_transport
new_transport-IsOrderly r = Reach-IsOrderly (record { fresh = inr refl; orderly = inl tt }) r
