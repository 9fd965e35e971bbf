-- ===== src/Tests/Whole.antt =====
-- The service as a whole, from one claimed message.
use queue_ti.Base.{[], ◌∷◌}
use queue_ti.Base.Text.{bytes}
use queue_ti.Queue.Op.{World}
use queue_ti.Queue.Op.Keeps.{Holds}
use queue_ti.Queue.Requests.{Request, serve, here, next, serves}
use queue_ti.Queue.Wf.{Wf}
use queue_ti.Queue.Wf.Reach.{Reach-Wf}
use queue_ti.Tests.Scene.{service, call_at, orders, taken, world_with}

-- One message is claimed.
abbrev start : World
start = world_with (taken ∷ [])

one_row : Wf (world_with (taken ∷ [])).committed
one_row = record {
  ids = (tt, tt);
  keys = (tt, tt);
  rows = (record { idle = λ e. cc; leased = λ e. λ f. cc; linked = tt }, tt);
  archived = tt;
  pairs = tt;
  references = tt;
}

Reach-Wf_example : Holds Wf (
    serve service
      (call_at 400)
      (Request.dequeues orders 0)
      (serve service (call_at 300) (Request.nacks 100 (bytes "boom")) start))
Reach-Wf_example =
    Reach-Wf (one_row, one_row)
      (next (next here (serves start (call_at 300) (Request.nacks 100 (bytes "boom")))) (
        serves (serve service (call_at 300) (Request.nacks 100 (bytes "boom")) start) (call_at 400)
          (Request.dequeues orders 0)))
