-- ===== src/Rpc/Transparent.antt =====
-- A call of the client that the server answers is the call of the runtime.
use xrtransport.Common.{
  ℕ, ◌^◌, ◌<◌, ◌≡◌, refl, ap, sym, subst, ◌∙◌, List, [], ◌∷◌, ◌++◌, append-nil, some, arith, inl,
}
use xrtransport.Common.Dict.{find}
use xrtransport.Serialization.Stream.{Result, ok, throws, bind, bind-eq-ok, ok-injective}
use xrtransport.Serialization.Bytes.{deserialize-serialize, u32}
use xrtransport.Transport.Frame.{Message}
use xrtransport.Transport.State.{opened, Transport, start_message, flush}
use xrtransport.Transport.Dispatch.{await_message}
use xrtransport.Transport.Dispatch
use xrtransport.Transport.State
use xrtransport.Transport.Awaits.{Others, IsQuiet, serve, await_message-serve}
use xrtransport.Serialization.Word.{Word, deserialize_word}
use xrtransport.Serialization.Wire.{◌⊕◌, scalar, Lands, then-Lands, scalar-Lands, last-Lands}
use xrtransport.Rpc.Call.{
  msg_function_call, msg_function_return, Call, Handler, RuntimeFunction, handle, Handlers,
  handle_function, handle_call, Outcome, returns, thrown, read_reply, finish, call_payload, rpc,
}

-- A function of the client and its handler fit together: arguments that are `Sendable` arrive at the
-- runtime as `arrived`, and what the memory behind them holds after the runtime's call is `placed` in
-- the application's, if that is ready for it.
pub record Agrees {A O : Type 0} (c : Call A O) (h : Handler A O) (Sendable : A → Type 0)
    (Ready : A → O → Type 0) (arrived : A → A) (placed : A → O → Result O) : Type 0 where
  pub same_function : c.function_id ≡ h.key
  pub id_fits : c.function_id < 2 ^ 32
  pub sends : (a : A) → Sendable a → Lands (c.request a) h.params (ok (arrived a))
  pub answers :
      (a : A) (o : O)
      → Sendable a
      → Ready a o
      → Lands (h.results (arrived a) o) (c.reply a) (placed a o)

module _ {A O : Type 0} (c : Call A O) where
  -- How a call ends that reads a reply with this result into the application's memory.
  abbrev pub outcome : Word 4 → Transport → Result O → Outcome O
  outcome result u (ok x) = returns result (some x) u
  outcome result u (throws e) = thrown c e u

  abbrev read_of : Word 4 → Result O → Result ((Word 4 × O) × List ℕ)
  read_of result r = bind (bind r (λ x. ok (result, x))) (λ y. ok (y, []))

  outcome_of :
      (result : Word 4) (u : Transport) (r : Result O)
      → (elim (read_of result r) [ ok p ↦ returns p.0.0 (some p.0.1) u | throws e ↦ thrown c e u ])
        ≡ outcome result u r
  outcome_of result u (ok x) = refl
  outcome_of result u (throws e) = refl

handle_function_found :
    (handlers : Handlers) (id : ℕ) (bs : List ℕ) {handler : List ℕ → Result (List ℕ)}
    → find id handlers ≡ some handler
    → handle_function handlers id bs ≡ handler bs
unfolding handle_function
handle_function_found handlers id bs f = rw (f, handle_function) refl

handle_params :
    {A O : Type 0} (h : Handler A O) (function : RuntimeFunction A O) (duration : Word 8)
    {w : Result (List ℕ)} {a : A}
    → Lands w h.params (ok a)
    → (bs : List ℕ) → w ≡ ok bs
    → handle h (some function) duration bs
      ≡ scalar (function a).0 ⊕ scalar duration ⊕ h.results a (function a).1
unfolding handle
handle_params h function duration {a} l bs e =
    let params : h.params bs ≡ ok (a, []) =
      subst (λ cs. h.params cs ≡ ok (a, [])) (append-nil bs) (l.lands bs [] e) in
    rw params refl

-- The transport behind a call: its message sent, and these messages in its queue.
abbrev pub sent_call : List ℕ → List Message → Transport → Transport
sent_call bs queue t = record t {
  sent = t.sent ++ record { header = msg_function_call; payload = bs } ∷ [];
  queue = queue;
}

abbrev pub reply_message : List ℕ → Message
reply_message payload = record { header = msg_function_return; payload = payload }

start_message-opened :
    (header : ℕ) (t : Transport)
    → t.status ≡ opened
    → start_message header t ≡ State.ok (record { header = header; payload = [] })
unfolding start_message
start_message-opened header t o = rw o refl

flush-opened :
    (m : Message) (t : Transport)
    → t.status ≡ opened
    → flush m t ≡ State.ok (record t { sent = t.sent ++ m ∷ [] })
unfolding flush
flush-opened m t o = rw o refl

pub rpc_sent :
    {A O : Type 0} (c : Call A O) (run : ℕ → List ℕ → Transport → Transport) (queue : List Message)
    (a : A) (bs : List ℕ) (t : Transport)
    → t.status ≡ opened
    → call_payload c a ≡ ok bs
    → rpc c run (λ t'. record t' { queue = queue }) a t
      ≡ finish c a (await_message run msg_function_return (sent_call bs queue t))
unfolding rpc
rpc_sent c run queue a bs t o e =
    rw
      (
        start_message-opened msg_function_call t o,
        rpc,
        e,
        flush-opened (record { header = msg_function_call; payload = bs }) t o,
      )
      refl

module _ {A O : Type 0} (c : Call A O) (h : Handler A O) (Sendable : A → Type 0)
    (Ready : A → O → Type 0) (arrived : A → A) (placed : A → O → Result O)
    (agrees : Agrees c h Sendable Ready arrived placed) where
  -- The payload of a call makes the server call the runtime's function, with the arguments as they
  -- arrive, and its reply has the result, the duration and the memory behind the arguments, if the
  -- function is registered under the id of the client's.
  pub handle_call-call_payload :
      (function : RuntimeFunction A O) (duration : Word 8) (handlers : Handlers) (a : A)
      (bs : List ℕ)
      → Sendable a
      → find h.key handlers ≡ some (handle h (some function) duration)
      → call_payload c a ≡ ok bs
      → let (result, memory) = function (arrived a) in
        handle_call handlers bs ≡ scalar result ⊕ scalar duration ⊕ h.results (arrived a) memory
  unfolding call_payload handle_call ◌⊕◌
  handle_call-call_payload function duration handlers a bs s f e =
      let (d, ed, e') = bind-eq-ok (c.request a) _ e in
      rw
        (
          ← ok-injective e',
          deserialize-serialize u32 c.function_id agrees.id_fits d,
          agrees.same_function,
        )
        (handle_function_found handlers h.key d f
          ∙ handle_params h function duration (agrees.sends a s) d ed)

  read_reply-Lands :
      (result : Word 4) (duration : Word 8) (a : A) (o : O)
      → Sendable a
      → Ready a o
      → Lands
          (scalar result ⊕ scalar duration ⊕ h.results (arrived a) o)
          (read_reply c a)
          (bind (placed a o) (λ x. ok (result, x)))
  unfolding read_reply
  read_reply-Lands result duration a o s r =
      then-Lands (deserialize_word 4) _ (ok result) (λ v. bind (placed a o) (λ x. ok (v, x)))
        (scalar-Lands result)
        (λ v.
          then-Lands (deserialize_word 8) _ (ok duration) (λ d. bind (placed a o) (λ x. ok (v, x)))
            (scalar-Lands duration)
            (λ d. last-Lands (c.reply a) (placed a o) (λ x. (v, x)) (agrees.answers a o s r)))

  finish_reply :
      (result : Word 4) (duration : Word 8) (a : A) (o : O) (reply : List ℕ) (u : Transport)
      → Sendable a
      → Ready a o
      → scalar result ⊕ scalar duration ⊕ h.results (arrived a) o ≡ ok reply
      → finish c a (Dispatch.received reply u) ≡ outcome c result u (placed a o)
  unfolding finish
  finish_reply result duration a o reply u s r e =
      let read : read_reply c a reply ≡ read_of c result (placed a o) =
        subst (λ bs. read_reply c a bs ≡ read_of c result (placed a o)) (append-nil reply)
          ((read_reply-Lands result duration a o s r).lands reply [] e) in
      rw (read, finish) (outcome_of c result u (placed a o))

  -- On an open transport with quiet handlers, a call of the client whose message the server answers
  -- returns what the runtime returned for the arguments as they arrive at it, and the application's
  -- memory holds what the runtime left behind the arguments, as far as it can be placed there; else
  -- it fails with the exception of the placement. The messages that were queued before the reply are
  -- served first, and those behind it stay queued.
  pub rpc-handle_call :
      (function : RuntimeFunction A O) (duration : Word 8) (handlers : Handlers)
      (run : ℕ → List ℕ → Transport → Transport) (a : A) (bs reply : List ℕ)
      (ms post : List Message) (t : Transport)
      → IsQuiet run
      → Sendable a
      → Ready a (function (arrived a)).1
      → find h.key handlers ≡ some (handle h (some function) duration)
      → call_payload c a ≡ ok bs
      → handle_call handlers bs ≡ ok reply
      → t.status ≡ opened
      → Others msg_function_return ms
      → let (result, memory) = function (arrived a) in
        let m = reply_message reply in
        let u = record (serve run ms (m ∷ post) (sent_call bs (ms ++ m ∷ post) t)) {
          queue = post;
        } in
        rpc c run (λ t'. record t' { queue = ms ++ m ∷ post }) a t
        ≡ outcome c result u (placed a memory)
  rpc-handle_call function duration handlers run a bs reply ms post t q s r f e k o others =
      let (result, memory) = function (arrived a) in
      let m = reply_message reply in
      let queue = ms ++ m ∷ post in
      let answer = sym (handle_call-call_payload function duration handlers a bs s f e) ∙ k in
      let awaited =
        await_message-serve run q msg_function_return ms post m (sent_call bs queue t)
          (λ x. absurd (omega (arith, x))) (inl o) others refl (inl refl) in
      rpc_sent c run queue a bs t o e
      ∙ (ap (finish c a) awaited
          ∙ finish_reply result duration a memory reply
              (record (serve run ms (m ∷ post) (sent_call bs queue t)) { queue = post }) s r answer)
