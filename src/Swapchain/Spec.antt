-- ===== src/Swapchain/Spec.antt =====
-- What a swapchain promises, with no ring in sight: the images that the application holds, oldest
-- first, whether the oldest has been waited for, and the index that comes next.
use xrtransport.Common.{
  ℕ, ◌+◌, Bool, true, false, List, [], ◌∷◌, ◌++◌, Option, none, some, length, ltb, ◌==◌,
  if◌then◌else◌,
}
use xrtransport.Xr.{XrResult, success, error_call_order_invalid}
use xrtransport.Swapchain.Defs.{Call, acquires, waits, releases}

pub record View : Type 0 where
  pub held : List ℕ
  pub waited : Bool
  pub next : ℕ

abbrev pub Reply : Type 0
Reply = XrResult × Option ℕ

abbrev refusal : Reply
refusal = (error_call_order_invalid, none)

abbrev pub wrap : ℕ → ℕ → ℕ
wrap n h = if h + 1 == n then 0 else h + 1

module _ (n : ℕ) where
  acquire : View → Reply × View
  acquire v =
      if ltb (length v.held) n
      then ((success, some v.next), record v { held = v.held ++ v.next ∷ []; next = wrap n v.next })
      else (refusal, v)

  wait : View → List ℕ → Bool → Reply × View
  wait v (i ∷ held) false = ((success, none), record v { waited = true })
  wait v _ _ = (refusal, v)

  release : View → List ℕ → Bool → Reply × View
  release v (i ∷ held) true = ((success, some i), record v { held = held; waited = false })
  release v _ _ = (refusal, v)

  unfoldable pub step : View → Call → Reply × View
  unfolding acquire wait release
  step v acquires = acquire v
  step v (waits t) = wait v v.held v.waited
  step v releases = release v v.held v.waited

  unfoldable pub run : View → List Call → List Reply
  run v [] = []
  run v (c ∷ cs) = let (r, v') = step v c in r ∷ run v' cs
