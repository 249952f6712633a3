-- ===== src/Events/Settling.antt =====
-- What becomes of a message of the queue (src/core/event-system/eventWorker.ts, `processOne`).
use Prim.Native.String.{String}
use nayft_backend.Common.{ℕ, ◌+◌, ◌≤◌}
use nayft_backend.Events.Payloads.{Parsed, EventIo, IsEventIo, Stored}
use nayft_backend.Events.Worker.{Turn, failures}
use nayft_backend.Events.Persisting.{Adds}

-- What a turn leaves of a message that it took: at most two failed entries and at most three events,
-- all about the message, and at least one of them unless the turn ended in an error.
abbrev pub Settled :
    {M : Type 0} (parse : String → Parsed M) (raw : String) (v v' : Stored M) (turn : Turn) → Type 0
Settled parse raw v v' turn =
    (m n : ℕ) × Adds parse raw v v' m n × (m ≤ 2) × (n ≤ 3) × (1 ≤ m + n + failures turn)

module _ {M S : Type 0} (io : EventIo M S) (laws : IsEventIo io) (raw : String) (v : Stored M) where
  -- What a turn leaves, read off its result.
  abbrev Ended : S × Turn → Type 0
  Ended r = Settled io.parse raw v (io.stored r.0) r.1
