-- ===== src/Rpc/Enumerate.antt =====
-- The first of the two calls that enumerate the reference spaces of a session.
use xrtransport.Common.{ℕ, ◌≡◌, refl, ap, sym, subst, ◌∙◌, List, [], ◌∷◌, ◌++◌, none, some}
use xrtransport.Common.Dict.{find}
use xrtransport.Serialization.Stream.{Result, ok, bind}
use xrtransport.Serialization.Pointer.{Pointer}
use xrtransport.Serialization.Pointers.{received, placed}
use xrtransport.Transport.Frame.{Message}
use xrtransport.Transport.State.{opened, Transport}
use xrtransport.Transport.Awaits.{Others, IsQuiet, serve}
use xrtransport.Serialization.Word.{Word}
use xrtransport.Serialization.Wire.{WordsReady}
use xrtransport.Rpc.Call.{
  msg_function_return, error_runtime_failure, RuntimeFunction, handle, Handlers, handle_call,
  Outcome, returns, call_payload, rpc, thrown,
}
use xrtransport.Rpc.Transparent.{sent_call, reply_message, rpc-handle_call, outcome}
use xrtransport.Rpc.Spaces.{xr_enumerate_reference_spaces, handle_xr_enumerate_reference_spaces}
use xrtransport.Rpc.Agree.Spaces.{xr_enumerate_reference_spaces-Agrees}

-- The memory that the function reads its reply into.
abbrev pub Filled : Type 0
Filled = Pointer (Word 4) × Pointer (Word 4)

abbrev pub Arguments : Type 0
Arguments = Word 8 × Word 4 × Pointer (Word 4) × Pointer (Word 4)

-- How a call with a capacity of 0 ends, by whether `spaces` is null.
abbrev pub ended : Pointer (Word 4) → Word 4 → Word 4 → Transport → Outcome Filled
ended none result n u = returns result (some (some (n ∷ []), none)) u
ended (some ys) result n u = returns error_runtime_failure none u

received_nothing : (p : Pointer (Word 4)) → received p 0 ≡ none
received_nothing none = refl
received_nothing (some ys) = refl

any_ready : (p : Pointer (Word 4)) (len : ℕ) → WordsReady p none len
any_ready none len = tt
any_ready (some ys) len = tt

-- What becomes of the application's memory.
abbrev filled : Word 4 → Word 4 → Pointer (Word 4) → Filled → Result Filled
filled capacity count spaces memory =
    bind (placed (some (count ∷ [])) memory.0 1)
      (λ x. bind (placed spaces memory.1 capacity.value) (λ y. ok (x, y)))

abbrev Ready : Word 4 → Word 4 → Pointer (Word 4) → Filled → Type 0
Ready capacity count spaces memory =
    WordsReady (some (count ∷ [])) memory.0 1 × WordsReady spaces memory.1 capacity.value

filled_ends :
    (capacity count n result : Word 4) (spaces : Pointer (Word 4)) (u : Transport)
    → outcome xr_enumerate_reference_spaces result u
        (filled capacity count spaces (some (n ∷ []), none))
      ≡ ended spaces result n u
unfolding thrown
filled_ends capacity count n result none u = refl
filled_ends capacity count n result (some ys) u = refl

-- A call with a capacity of 0 and a pointer to a count, which the server answers, returns the result
-- and the count of the runtime if `spaces` is null. If it is not null, the call fails, whatever the
-- runtime returned, since the server has got a null pointer and sends one back.
pub xr_enumerate_reference_spaces_first :
    (function : RuntimeFunction Arguments Filled) (duration : Word 8) (handlers : Handlers)
    (run : ℕ → List ℕ → Transport → Transport) (session : Word 8) (capacity count n result : Word 4)
    (spaces : Pointer (Word 4)) (bs reply : List ℕ) (ms post : List Message) (t : Transport)
    → IsQuiet run
    → capacity.value ≡ 0
    → find handle_xr_enumerate_reference_spaces.key handlers
      ≡ some (handle handle_xr_enumerate_reference_spaces (some function) duration)
    → function (session, capacity, some (count ∷ []), none) ≡ (result, (some (n ∷ []), none))
    → call_payload xr_enumerate_reference_spaces (session, capacity, some (count ∷ []), spaces)
      ≡ ok bs
    → handle_call handlers bs ≡ ok reply
    → t.status ≡ opened
    → Others msg_function_return ms
    → let m = reply_message reply in
      rpc xr_enumerate_reference_spaces run
        (λ t'. record t' { queue = ms ++ m ∷ post })
        (session, capacity, some (count ∷ []), spaces)
        t
      ≡ ended spaces result n
          (record (serve run ms (m ∷ post) (sent_call bs (ms ++ m ∷ post) t)) { queue = post })
xr_enumerate_reference_spaces_first function duration handlers run session capacity count n result
      spaces bs reply ms post t q z f e k h o others =
    let m = reply_message reply in
    let u = record (serve run ms (m ∷ post) (sent_call bs (ms ++ m ∷ post) t)) { queue = post } in
    let e' = ap function (rw (z, received_nothing spaces) refl) ∙ e in
    let ready =
      subst (λ r. Ready capacity count spaces r.1) (sym e')
        ((tt, tt), any_ready spaces capacity.value) in
    rpc-handle_call xr_enumerate_reference_spaces handle_xr_enumerate_reference_spaces _ _ _ _
      xr_enumerate_reference_spaces-Agrees function duration handlers run
      (session, capacity, some (count ∷ []), spaces) bs reply ms post t q tt ready f k h o others
    ∙ (ap (λ r. outcome xr_enumerate_reference_spaces r.0 u (filled capacity count spaces r.1)) e'
        ∙ filled_ends capacity count n result spaces u)
