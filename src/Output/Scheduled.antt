-- ===== src/Output/Scheduled.antt =====
-- A kernel that meets the laws of Output: a descriptor that takes its bytes in pieces of given sizes, and
-- now and then none.
use mini_sync.Common.{
  ℕ, suc, ◌≤◌, ◌<◌, ◌≡◌, ◌≢◌, List, [], ◌∷◌, ◌++◌, arith, length, take, min, take_all, ◌⊎◌, inl,
  inr,
}
use mini_sync.Output.{WriteReply, wrote, interrupted, again, failed, Output, IsWritable, NeverFails}

pub data Event : Type 0 where
  -- There is room for this many bytes and one more.
  room : ℕ → Event
  signal : Event
  busy : Event

pub record Sink : Type 0 where
  pub sent : List ℕ
  pub events : List Event

-- When the events are used up, there is room for all bytes.
unfoldable pub write_events : List Event → List ℕ → List ℕ → WriteReply × Sink
write_events [] sent bs = (wrote (length bs), record { sent = sent ++ bs; events = [] })
write_events (signal ∷ es) sent bs = (interrupted, record { sent = sent; events = es })
write_events (busy ∷ es) sent bs = (again, record { sent = sent; events = es })
write_events (room k ∷ es) sent bs =
    let n = min (length bs) (suc k) in (wrote n, record { sent = sent ++ take n bs; events = es })

-- Every event but the last write can take no byte.
abbrev pub idle : List Event → ℕ
idle [] = 0
idle (_ ∷ es) = suc (idle es)

abbrev pub sink : Output
sink = record { State = Sink; write = λ s bs. write_events s.events s.sent bs }

pub wrote_lem :
    (es : List Event) (sent bs : List ℕ) (n : ℕ) (t : Sink)
    → write_events es sent bs ≡ (wrote n, t)
    → (n ≤ length bs) × (t.sent ≡ sent ++ take n bs) × (idle t.events ≤ idle es)
unfolding write_events
wrote_lem [] sent bs n t e = (ground arith, ground (arith, take_all n bs), ground arith)
wrote_lem (signal ∷ es) sent bs n t e = cc
wrote_lem (busy ∷ es) sent bs n t e = cc
wrote_lem (room k ∷ es) sent bs n t e = (ground arith, ground arith, ground arith)

pub wrote_zero_lem :
    (es : List Event) (sent bs : List ℕ) (t : Sink)
    → 0 < length bs
    → write_events es sent bs ≡ (wrote 0, t)
    → ⊥
unfolding write_events
wrote_zero_lem [] sent bs t h e = ground arith
wrote_zero_lem (signal ∷ es) sent bs t h e = cc
wrote_zero_lem (busy ∷ es) sent bs t h e = cc
wrote_zero_lem (room k ∷ es) sent bs t h e = ground arith

pub idle_lem :
    (es : List Event) (sent bs : List ℕ) (t : Sink)
    → (write_events es sent bs ≡ (interrupted, t)) ⊎ (write_events es sent bs ≡ (again, t))
    → (t.sent ≡ sent) × (idle t.events < idle es)
unfolding write_events
idle_lem [] sent bs t (inl e) = cc
idle_lem [] sent bs t (inr e) = cc
idle_lem (signal ∷ es) sent bs t (inl e) = (ground arith, ground arith)
idle_lem (signal ∷ es) sent bs t (inr e) = cc
idle_lem (busy ∷ es) sent bs t (inl e) = cc
idle_lem (busy ∷ es) sent bs t (inr e) = (ground arith, ground arith)
idle_lem (room k ∷ es) sent bs t (inl e) = cc
idle_lem (room k ∷ es) sent bs t (inr e) = cc

failed_lem : (es : List Event) (sent bs : List ℕ) (t : Sink) → write_events es sent bs ≢ (failed, t)
unfolding write_events
failed_lem [] sent bs t e = cc
failed_lem (signal ∷ es) sent bs t e = cc
failed_lem (busy ∷ es) sent bs t e = cc
failed_lem (room k ∷ es) sent bs t e = cc

abbrev pub sink-IsWritable : IsWritable sink
sink-IsWritable = record {
  sent = λ s. s.sent;
  retries = λ s. idle s.events;
  wrote_at_most = λ s t bs n e. (wrote_lem s.events s.sent bs n t e).0;
  sent-wrote = λ s t bs n e. (wrote_lem s.events s.sent bs n t e).1;
  sent-interrupted = λ s t bs e. (idle_lem s.events s.sent bs t (inl e)).0;
  sent-again = λ s t bs e. (idle_lem s.events s.sent bs t (inr e)).0;
  retries-wrote = λ s t bs n e. (wrote_lem s.events s.sent bs n t e).2;
  retries-wrote_zero = λ s t bs pos e. absurd (wrote_zero_lem s.events s.sent bs t pos e);
  retries-interrupted = λ s t bs e. (idle_lem s.events s.sent bs t (inl e)).1;
  retries-again = λ s t bs e. (idle_lem s.events s.sent bs t (inr e)).1;
}

pub sink-NeverFails : NeverFails sink
sink-NeverFails s t bs = failed_lem s.events s.sent bs t
