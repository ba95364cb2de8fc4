-- ===== src/Transport/Race.antt =====
-- `shutdown` sets its last status with no regard to what was set since its check: the producer may
-- close the transport in between, as it does on an IO error, without the message lock.
use xrtransport.Common.{ℕ, ◌≡◌, refl, true, List, [], ◌∷◌, ◌++◌, arith}
use xrtransport.Transport.Frame.{msg_shutdown}
use xrtransport.Transport.State.{
  opened, write_closed, ok, Transport, shutdown_begin, shutdown_end, close,
}
use xrtransport.Transport.Dispatch.{exits, sleeps, consumer_round}

-- If the producer closes an open transport with an empty queue between the flush of `shutdown` and its
-- last statement, the transport is left with its stream closed and the status write-closed, and the
-- consumer goes to sleep. Closed behind `shutdown`, the consumer ends its loop.
pub shutdown_race :
    (run : ℕ → List ℕ → Transport → Transport) (t : Transport)
    → t.status ≡ opened
    → t.queue ≡ []
    → (t' : Transport) × (shutdown_begin t ≡ ok t')
      × ((shutdown_end (close t')).status ≡ write_closed)
      × ((shutdown_end (close t')).stream_closed ≡ true)
      × (consumer_round run (shutdown_end (close t')) ≡ sleeps)
      × (consumer_round run (close (shutdown_end t')) ≡ exits)
unfolding shutdown_begin shutdown_end close consumer_round
shutdown_race run t o q = (
  record t { sent = t.sent ++ record { header = msg_shutdown; payload = [] } ∷ [] },
  ground arith,
  refl,
  refl,
  ground arith,
  ground arith,
)
