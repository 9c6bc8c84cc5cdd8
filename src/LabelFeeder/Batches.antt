-- ===== src/LabelFeeder/Batches.antt =====
-- What becomes of the labels that a load test queues.
use modelops_control_plane.Base.{
  ℕ, ◌+◌, ◌≡◌, ◌≤◌, refl, ap, Bool, true, ◌&&◌, not, List, [], ◌∷◌, ◌++◌, ltb, leb, if◌then◌else◌,
  where_, count, length, All, arith, Bool-cases, inl, inr,
}
use modelops_control_plane.LabelFeeder.{
  SentLabel, QueuedLabel, label_flush_batch_size, Feeder, is_covered, queue_label, due_batch,
  post_batch, flush_once, FeederStep, queues, flushes, feeder_step, run_feeder, new_feeder,
}

-- How many labels of a queue, and of the posts, pass a test.
abbrev pub waiting : (SentLabel → Bool) → List QueuedLabel → ℕ
waiting p [] = 0
waiting p (x ∷ xs) = (if p x.label then 1 else 0) + waiting p xs

abbrev pub posted : (SentLabel → Bool) → List (List SentLabel) → ℕ
posted p [] = 0
posted p (b ∷ bs) = count p b + posted p bs

-- How many of the labels that the users report pass a test, and are drawn to be covered.
abbrev pub reported : (SentLabel → Bool) → (coverage : ℕ) → List FeederStep → ℕ
reported p coverage [] = 0
reported p coverage (queues draw now label ∷ steps) =
    (if is_covered coverage draw && p label then 1 else 0) + reported p coverage steps
reported p coverage (flushes now ∷ steps) = reported p coverage steps

abbrev pub is_due_label : ℕ → QueuedLabel → Bool
is_due_label now x = leb x.send_at now

abbrev pub IsBatch : List SentLabel → Type 0
IsBatch b = (1 ≤ length b) × (length b ≤ label_flush_batch_size)

due_batch-kept :
    (p : SentLabel → Bool) (now taken : ℕ) (q : List QueuedLabel)
    → count p (due_batch now taken q).0 + waiting p (due_batch now taken q).1 ≡ waiting p q
unfolding due_batch
due_batch-kept p now taken [] = refl
due_batch-kept p now taken (x ∷ xs) =
    let more = due_batch-kept p now (taken + 1) xs in
    let same = due_batch-kept p now taken xs in ground arith

due_batch-length :
    (now taken : ℕ) (q : List QueuedLabel)
    → taken ≤ label_flush_batch_size
    → length (due_batch now taken q).0 + taken ≤ label_flush_batch_size
unfolding due_batch
due_batch-length now taken [] h = omega (arith, h)
due_batch-length now taken (x ∷ xs) h =
    elim (Bool-cases (leb x.send_at now && ltb taken label_flush_batch_size)) [
      | inl q ↦
          let room : taken + 1 ≤ label_flush_batch_size = ground arith in
          let more = due_batch-length now (taken + 1) xs room in ground arith
      | inr q ↦ let same = due_batch-length now taken xs h in ground arith
    ]

-- Where all that is due has room, what stays is exactly what is not due.
due_batch-rest :
    (now taken : ℕ) (q : List QueuedLabel)
    → count (is_due_label now) q + taken ≤ label_flush_batch_size
    → (due_batch now taken q).1 ≡ where_ (λ x. not (is_due_label now x)) q
unfolding due_batch
due_batch-rest now taken [] h = refl
due_batch-rest now taken (x ∷ xs) h = elim (Bool-cases (leb x.send_at now)) [
  | inl q ↦
      let room : ltb taken label_flush_batch_size ≡ true = ground arith in
      let fits : count (is_due_label now) xs + (taken + 1) ≤ label_flush_batch_size =
        ground arith in
      let more = due_batch-rest now (taken + 1) xs fits in ground arith
  | inr q ↦
      let fits : count (is_due_label now) xs + taken ≤ label_flush_batch_size = ground arith in
      let same = due_batch-rest now taken xs fits in ground arith
]

waiting-snoc :
    (p : SentLabel → Bool) (q : List QueuedLabel) (x : QueuedLabel)
    → waiting p (q ++ (x ∷ [])) ≡ waiting p q + (if p x.label then 1 else 0)
waiting-snoc p [] x = ground arith
waiting-snoc p (y ∷ ys) x = let rest = waiting-snoc p ys x in omega (arith, rest)

post_batch-posted :
    (p : SentLabel → Bool) (due : List SentLabel) (posts : List (List SentLabel))
    → posted p (post_batch due posts) ≡ count p due + posted p posts
post_batch-posted p [] posts = omega arith
post_batch-posted p (l ∷ ls) posts = refl

post_batch-IsBatch :
    (due : List SentLabel) (posts : List (List SentLabel))
    → length due ≤ label_flush_batch_size
    → All IsBatch posts
    → All IsBatch (post_batch due posts)
post_batch-IsBatch [] posts few h = h
post_batch-IsBatch (l ∷ ls) posts few h = ((omega arith, few), h)

flush_once-kept :
    (p : SentLabel → Bool) (now : ℕ) (f : Feeder)
    → posted p (flush_once now f).posts + waiting p (flush_once now f).queue
      ≡ posted p f.posts + waiting p f.queue
unfolding flush_once
flush_once-kept p now f =
    let due = due_batch-kept p now 0 f.queue in
    let sent = post_batch-posted p (due_batch now 0 f.queue).0 f.posts in omega (arith, due, sent)

flush_once-IsBatch :
    (now : ℕ) (f : Feeder) → All IsBatch f.posts → All IsBatch (flush_once now f).posts
unfolding flush_once
flush_once-IsBatch now f h =
    let few = due_batch-length now 0 f.queue (omega arith) in
    post_batch-IsBatch (due_batch now 0 f.queue).0 f.posts (omega (arith, few)) h

queue_label-kept :
    (p : SentLabel → Bool) (draw now : ℕ) (label : SentLabel) (f : Feeder)
    → posted p (queue_label draw now label f).posts + waiting p (queue_label draw now label f).queue
      ≡ (if is_covered f.label_coverage draw && p label then 1 else 0)
        + (posted p f.posts + waiting p f.queue)
unfolding queue_label
queue_label-kept p draw now label f =
    let x : QueuedLabel = record { send_at = now + f.label_delay; label = label } in
    let snoc = waiting-snoc p f.queue x in ground arith

queue_label-IsBatch :
    (draw now : ℕ) (label : SentLabel) (f : Feeder)
    → All IsBatch f.posts
    → All IsBatch (queue_label draw now label f).posts
unfolding queue_label
queue_label-IsBatch draw now label f h = elim (Bool-cases (is_covered f.label_coverage draw)) [
  | inl q ↦ rw q h
  | inr q ↦ rw q h
]

feeder_step-coverage :
    (step : FeederStep) (f : Feeder) → (feeder_step step f).label_coverage ≡ f.label_coverage
unfolding queue_label flush_once
feeder_step-coverage (queues draw now label) f = ground arith
feeder_step-coverage (flushes now) f = refl

-- What was posted, waits or is reported yet, is posted or waits at the end.
run_feeder-kept :
    (p : SentLabel → Bool) (steps : List FeederStep) (stopped_at : ℕ) (f : Feeder)
    → posted p (run_feeder steps stopped_at f).posts
        + waiting p (run_feeder steps stopped_at f).queue
      ≡ reported p f.label_coverage steps + (posted p f.posts + waiting p f.queue)
unfolding run_feeder
run_feeder-kept p [] stopped_at f = omega (arith, flush_once-kept p stopped_at f)
run_feeder-kept p (queues draw now label ∷ steps) stopped_at f =
    let rest = run_feeder-kept p steps stopped_at (queue_label draw now label f) in
    let same = feeder_step-coverage (queues draw now label) f in
    let first = queue_label-kept p draw now label f in
    let counted = ap (λ c. reported p c steps) same in omega (arith, rest, counted, first)
run_feeder-kept p (flushes now ∷ steps) stopped_at f =
    let rest = run_feeder-kept p steps stopped_at (flush_once now f) in
    let same = feeder_step-coverage (flushes now) f in
    let first = flush_once-kept p now f in
    let counted = ap (λ c. reported p c steps) same in omega (arith, rest, counted, first)

run_feeder-IsBatch :
    (steps : List FeederStep) (stopped_at : ℕ) (f : Feeder)
    → All IsBatch f.posts
    → All IsBatch (run_feeder steps stopped_at f).posts
unfolding run_feeder
run_feeder-IsBatch [] stopped_at f h = flush_once-IsBatch stopped_at f h
run_feeder-IsBatch (queues draw now label ∷ steps) stopped_at f h =
    run_feeder-IsBatch steps stopped_at (queue_label draw now label f)
      (queue_label-IsBatch draw now label f h)
run_feeder-IsBatch (flushes now ∷ steps) stopped_at f h =
    run_feeder-IsBatch steps stopped_at (flush_once now f) (flush_once-IsBatch now f h)

-- A feeder that starts with nothing, whatever its users and its thread do and whenever it stops:
-- the labels that are reported and drawn to be covered, counted by any test, are those that it has
-- posted and those that are left in its queue; and each post has from 1 to 50 labels.
pub reported_is_posted_or_left :
    (p : SentLabel → Bool) (delay coverage : ℕ) (steps : List FeederStep) (stopped_at : ℕ)
    → let f = run_feeder steps stopped_at (new_feeder delay coverage) in
      (posted p f.posts + waiting p f.queue ≡ reported p coverage steps) × All IsBatch f.posts
reported_is_posted_or_left p delay coverage steps stopped_at = (
  omega (arith, run_feeder-kept p steps stopped_at (new_feeder delay coverage)),
  run_feeder-IsBatch steps stopped_at (new_feeder delay coverage) tt,
)

-- Where at most a batch of labels is due when the feeder stops, its last flush leaves exactly the
-- labels that are not due in the queue, which nothing posts afterwards.
pub stop_leaves_not_due :
    (stopped_at : ℕ) (f : Feeder)
    → count (is_due_label stopped_at) f.queue ≤ label_flush_batch_size
    → (run_feeder [] stopped_at f).queue ≡ where_ (λ x. not (is_due_label stopped_at x)) f.queue
unfolding run_feeder flush_once
stop_leaves_not_due stopped_at f few = due_batch-rest stopped_at 0 f.queue (omega (arith, few))
