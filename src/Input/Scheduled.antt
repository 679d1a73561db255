-- ===== src/Input/Scheduled.antt =====
-- A kernel that meets the laws of Input: a stream whose bytes come in pieces of given sizes, with signals
-- in between. The tests run on it.
use mini_sync.Common.{
  ℕ, zero, suc, ◌≤◌, ◌<◌, ◌≡◌, refl, ◌≢◌, List, [], ◌∷◌, ◌++◌, arith, length, take, drop, min,
  length-take, take-append-drop,
}
use mini_sync.Input.{ReadReply, got, interrupted, failed, Input, IsReadable, NeverFails}

pub data Event : Type 0 where
  -- At most one byte more than this is ready.
  ready : ℕ → Event
  signal : Event

pub record Stream : Type 0 where
  pub bytes : List ℕ
  pub events : List Event

-- When the events are used up, all bytes are ready.
unfoldable pub read_events : List Event → List ℕ → ℕ → ReadReply × Stream
read_events [] bytes n = (got (take n bytes), record { bytes = drop n bytes; events = [] })
read_events (signal ∷ es) bytes n = (interrupted, record { bytes = bytes; events = es })
read_events (ready k ∷ es) bytes n =
    (got (take (min n (suc k)) bytes), record { bytes = drop (min n (suc k)) bytes; events = es })

abbrev pub signals : List Event → ℕ
signals [] = 0
signals (signal ∷ es) = suc (signals es)
signals (ready k ∷ es) = signals es

abbrev pub stream : Input
stream = record { State = Stream; read = λ s n. read_events s.events s.bytes n }

abbrev pub Got : List Event → List ℕ → ℕ → Type 0
Got es all n =
    (t : Stream) (bs : List ℕ)
    → read_events es all n ≡ (got bs, t)
    → (length bs ≤ n)
      × (all ≡ bs ++ t.bytes)
      × (signals t.events ≤ signals es)
      × (0 < n → bs ≡ [] → all ≡ [])

take_none : (n : ℕ) (bytes : List ℕ) → 0 < n → take n bytes ≡ [] → bytes ≡ []
take_none zero bytes h e = absurd (omega arith)
take_none (suc n) [] h e = refl
take_none (suc n) (b ∷ bytes) h e = cc

pub got_lem : (es : List Event) (all : List ℕ) (n : ℕ) → Got es all n
unfolding read_events
got_lem [] all n t bs e = (
  ground (arith, length-take n all),
  ground (arith, take-append-drop n all),
  ground arith,
  λ h none. take_none n all h (ground arith),
)
got_lem (signal ∷ es) all n t bs e = cc
got_lem (ready k ∷ es) all n t bs e = (
  ground (arith, length-take (min n (suc k)) all),
  ground (arith, take-append-drop (min n (suc k)) all),
  ground arith,
  λ h none. take_none (min n (suc k)) all (omega arith) (ground arith),
)

pub interrupted_lem :
    (es : List Event) (all : List ℕ) (n : ℕ) (t : Stream)
    → read_events es all n ≡ (interrupted, t)
    → (t.bytes ≡ all) × (signals t.events < signals es)
unfolding read_events
interrupted_lem [] all n t e = cc
interrupted_lem (signal ∷ es) all n t e = (ground arith, ground arith)
interrupted_lem (ready k ∷ es) all n t e = cc

failed_lem :
    (es : List Event) (all : List ℕ) (n : ℕ) (t : Stream) → read_events es all n ≢ (failed, t)
unfolding read_events
failed_lem [] all n t e = cc
failed_lem (signal ∷ es) all n t e = cc
failed_lem (ready k ∷ es) all n t e = cc

abbrev pub stream-IsReadable : IsReadable stream
stream-IsReadable = record {
  rest = λ s. s.bytes;
  retries = λ s. signals s.events;
  got_at_most = λ s t n bs e. (got_lem s.events s.bytes n t bs e).0;
  rest-got = λ s t n bs e. (got_lem s.events s.bytes n t bs e).1;
  got_end = λ s t n h e. (got_lem s.events s.bytes n t [] e).3 h refl;
  rest-interrupted = λ s t n e. (interrupted_lem s.events s.bytes n t e).0;
  retries-got = λ s t n bs e. (got_lem s.events s.bytes n t bs e).2;
  retries-interrupted = λ s t n e. (interrupted_lem s.events s.bytes n t e).1;
}

pub stream-NeverFails : NeverFails stream
stream-NeverFails s t n = failed_lem s.events s.bytes n t
