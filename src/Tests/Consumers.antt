-- ===== src/Tests/Consumers.antt =====
-- The consumer of the Go client.
use queue_ti.Base.{false, true, [], ◌∷◌, arith}
use queue_ti.Base.Text.{bytes}
use queue_ti.Client.Batches.{Steady, consume_batch, consume_batch-Steady, gives, over}
use queue_ti.Client.Batches
use queue_ti.Client.Consumer.{
  consume, backoff_start, returns_nil, panics, fails, streams, clean, broken,
}
use queue_ti.Client.Consumer.Runs.{Served, received, consume-Served}

consume-Served_example :
    Served
      (received (
        fails false false
        ∷ streams ((bytes "1", returns_nil) ∷ (bytes "2", panics (bytes "boom")) ∷ []) broken false
        ∷ streams [] clean true
        ∷ []))
      (consume backoff_start (
        fails false false
        ∷ streams ((bytes "1", returns_nil) ∷ (bytes "2", panics (bytes "boom")) ∷ []) broken false
        ∷ streams [] clean true
        ∷ []))
consume-Served_example =
    consume-Served backoff_start
      (fails false false
        ∷ streams ((bytes "1", returns_nil) ∷ (bytes "2", panics (bytes "boom")) ∷ []) broken false
        ∷ streams [] clean true
        ∷ [])
      (omega arith, omega arith)

consume_batch-Steady_example : Steady (
    consume_batch backoff_start
      (Batches.fails false false ∷ gives (bytes "1" ∷ []) false ∷ gives [] false ∷ over ∷ []))
consume_batch-Steady_example =
    consume_batch-Steady backoff_start
      (Batches.fails false false ∷ gives (bytes "1" ∷ []) false ∷ gives [] false ∷ over ∷ [])
      (omega arith, omega arith)
