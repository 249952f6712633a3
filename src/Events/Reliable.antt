-- ===== src/Events/Reliable.antt =====
-- Which errors can cost a message (src/core/event-system/eventWorker.ts, `processOne`).
use Prim.Native.String.{String}
