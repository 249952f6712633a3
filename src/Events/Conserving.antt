-- ===== src/Events/Conserving.antt =====
-- How many messages there are in a turn of the worker (src/core/event-system/eventWorker.ts).
use Prim.Native.String.{String}
use nayft_backend.Common.{ℕ, ◌+◌, length}
use nayft_backend.Events.Payloads.{Stored}

-- How many messages wait, have failed and are stored.
abbrev pub size : {M : Type 0} → Stored M → ℕ
size v = length v.queue + length v.dlq + length v.events
