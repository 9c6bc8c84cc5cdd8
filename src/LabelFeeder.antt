-- ===== src/LabelFeeder.antt =====
-- `_LabelFeeder` of backend/scripts/benchmarks/locustfile.py: the queue of the labels that a load test
-- has for its own predictions. The draw, the clock and what becomes of a post are outside of it.
pub mod Batches
use modelops_control_plane.Base.{
  ℕ, ◌+◌, Bool, true, false, ◌&&◌, List, [], ◌∷◌, ◌++◌, map, ltb, leb, if◌then◌else◌,
}

-- What a post says of a prediction.
pub record SentLabel : Type 0 where
  pub prediction_id : ℕ
  pub actual_label : ℕ

pub record QueuedLabel : Type 0 where
  pub send_at : ℕ
  pub label : SentLabel

abbrev pub label_flush_batch_size : ℕ
label_flush_batch_size = 50

-- `posts` are the batches that were posted, the last one first; a post that fails is not repeated.
pub record Feeder : Type 0 where
  pub label_delay : ℕ
  pub label_coverage : ℕ
  pub queue : List QueuedLabel
  pub posts : List (List SentLabel)

abbrev pub new_feeder : (delay coverage : ℕ) → Feeder
new_feeder delay coverage = record {
  label_delay = delay;
  label_coverage = coverage;
  queue = [];
  posts = [];
}

-- `random.random() > self._label_coverage`, both in the same unit.
abbrev pub is_covered : (coverage draw : ℕ) → Bool
is_covered coverage draw = leb draw coverage

unfoldable pub queue_label : (draw now : ℕ) → SentLabel → Feeder → Feeder
queue_label draw now label f =
    if is_covered f.label_coverage draw
    then record f {
      queue = f.queue ++ (record { send_at = now + f.label_delay; label = label } ∷ []);
    }
    else f

-- The loop of `_due_batch`, after `taken` labels: what is due, and what stays.
unfoldable pub due_batch : (now taken : ℕ) → List QueuedLabel → List SentLabel × List QueuedLabel
due_batch now taken [] = ([], [])
due_batch now taken (x ∷ xs) =
    let is_taken = leb x.send_at now && ltb taken label_flush_batch_size in
    let rest = due_batch now (if is_taken then taken + 1 else taken) xs in
    if is_taken then (x.label ∷ rest.0, rest.1) else (rest.0, x ∷ rest.1)

abbrev pub post_batch : List SentLabel → List (List SentLabel) → List (List SentLabel)
post_batch [] posts = posts
post_batch (l ∷ ls) posts = (l ∷ ls) ∷ posts

unfoldable pub flush_once : (now : ℕ) → Feeder → Feeder
flush_once now f =
    let (due, remaining) = due_batch now 0 f.queue in
    record f { queue = remaining; posts = post_batch due f.posts }

-- What the users of the load test and the feeder's thread do, one after another under the lock.
pub data FeederStep : Type 0 where
  queues : (draw now : ℕ) → SentLabel → FeederStep
  flushes : (now : ℕ) → FeederStep

abbrev pub feeder_step : FeederStep → Feeder → Feeder
feeder_step (queues draw now label) f = queue_label draw now label f
feeder_step (flushes now) f = flush_once now f

-- `_run`, with the users' calls: the steps up to `stop`, and the flush after it.
unfoldable pub run_feeder : List FeederStep → (stopped_at : ℕ) → Feeder → Feeder
run_feeder [] stopped_at f = flush_once stopped_at f
run_feeder (step ∷ steps) stopped_at f = run_feeder steps stopped_at (feeder_step step f)
