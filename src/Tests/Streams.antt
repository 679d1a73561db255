-- ===== src/Tests/Streams.antt =====
-- src/net_utils.c and src/hash.c over streams that come in pieces.
use mini_sync.Common.{
  ◌⊎◌, ◌≤◌, ℕ, ◌+◌, ◌≡◌, refl, ◌≢◌, ◌≤◌, ◌<◌, Option, some, List, [], ◌∷◌, ◌++◌, arith, codes,
  length, drop, leb, if◌then◌else◌,
}
use mini_sync.Input.Scheduled.{
  Stream, ready, signal, stream, stream-IsReadable, stream-NeverFails, signals,
}
use mini_sync.Output.Scheduled
use mini_sync.Output.Scheduled.{Sink, sink, sink-IsWritable, sink-NeverFails}
use mini_sync.Net.{done, broken, read_full, write_full}
use mini_sync.Net.Read.{HasRead, read_full_lem}
use mini_sync.Net.Write.{write_full_lem}
use mini_sync.Hash.{fnv_bytes, fnv_step, hash_buffer_fnv1a, hash_file_fnv1a, hash_file_range_fnv1a}
use mini_sync.Hash.File.{hash_file-eq-hash_buffer, hash_file_range-eq-hash_buffer}
use mini_sync.Hash.Detect.{hash_buffer-ne_of_one_byte}
use mini_sync.Protocol.{SyncHeader, validate_sync_header, send_header, recv_header, header_of_bytes}
use mini_sync.Protocol.Transport.{
  IsAcceptable, IsForeign, recv_header-IsAcceptable, recv_header-send_header,
}

abbrev bumpy : Stream
bumpy = record { bytes = codes "abcde"; events = ready 0 ∷ signal ∷ ready 1 ∷ [] }

abbrev slow : Sink
slow = record {
  sent = codes "x";
  events = Scheduled.Event.room 1 ∷ Scheduled.Event.busy ∷ Scheduled.Event.signal ∷ [];
}

-- The published FNV-1a values of "" and "a".
hash_known :
    (hash_buffer_fnv1a [] ≡ 0xcbf29ce484222325)
    × (hash_buffer_fnv1a (codes "a") ≡ 0xaf63dc4c8601ec8c)
unfolding hash_buffer_fnv1a
hash_known = (refl, refl)

read_full_example :
    (t : Stream) × (read_full stream 20 bumpy 4
      ≡ (if leb 4 5 then done (codes "abcd") t else broken t))
    × HasRead stream stream-IsReadable stream-NeverFails bumpy 4 t
read_full_example =
    read_full_lem stream stream-IsReadable stream-NeverFails 20 bumpy 4 (omega arith)

write_full_example :
    (t : Sink) × (write_full sink 20 slow (codes "hello") ≡ done tt t)
    × (t.sent ≡ codes "xhello")
    × (Scheduled.idle t.events ≤ 3)
write_full_example =
    write_full_lem sink sink-IsWritable sink-NeverFails 20 slow (codes "hello") (omega arith)

abbrev seek : Stream → ℕ → Option Stream
seek s n = some (record s { bytes = drop n s.bytes })

hash_file_example :
    hash_file_fnv1a stream seek 20 (some bumpy) ≡ some (hash_buffer_fnv1a (codes "abcde"))
hash_file_example =
    hash_file-eq-hash_buffer stream stream-IsReadable stream-NeverFails seek 20 bumpy (omega arith)

hash_file_range_example :
    hash_file_range_fnv1a stream seek 20 (some bumpy) 1 2 ≡ some (hash_buffer_fnv1a (codes "bc"))
hash_file_range_example =
    hash_file_range-eq-hash_buffer stream stream-IsReadable stream-NeverFails seek 20 bumpy
      (record bumpy { bytes = codes "bcde" }) 1 2 refl refl (omega arith) (omega arith)

-- The hash of some contents is 0.
zero_hash : hash_buffer_fnv1a (213 ∷ 107 ∷ 185 ∷ 83 ∷ 66 ∷ 135 ∷ 8 ∷ 54 ∷ []) ≡ 0
unfolding hash_buffer_fnv1a fnv_bytes fnv_step
zero_hash = refl

one_byte_example : hash_buffer_fnv1a (codes "cat") ≢ hash_buffer_fnv1a (codes "cut")
one_byte_example =
    hash_buffer-ne_of_one_byte (codes "c") (codes "t") b'a' b'u' (omega arith) (omega arith)
      (omega arith) (omega arith)

abbrev hello : SyncHeader
hello = record {
  magic = 0x4D53594E;
  version = 1;
  msg_type = 1;
  path_len = 0;
  file_size = 0;
  offset = 0;
  data_len = 0;
  mode = 0;
  mtime = 0;
  total_hash = 0;
  block_hash = 0;
}

recv_header-IsAcceptable_example :
    let h = header_of_bytes (codes "abcde") in
    (t : Stream) × (t.bytes ≡ [])
    × (((64 ≤ 5) × IsAcceptable h × (recv_header stream 20 bumpy ≡ done h t))
        ⊎ (((5 < 64) ⊎ IsForeign h) × (recv_header stream 20 bumpy ≡ broken t)))
recv_header-IsAcceptable_example =
    recv_header-IsAcceptable stream stream-IsReadable stream-NeverFails 20 bumpy (omega arith)

recv_header_example :
    (o : Sink) × (send_header sink 100 slow hello ≡ done tt o)
    × ((s : Stream) (more : List ℕ)
        → codes "x" ++ s.bytes ≡ o.sent ++ more
        → length s.bytes + signals s.events < 100
        → (t : Stream) × (recv_header stream 100 s
            ≡ (if validate_sync_header hello then done hello t else broken t))
          × (t.bytes ≡ more))
recv_header_example =
    recv_header-send_header sink sink-IsWritable sink-NeverFails stream stream-IsReadable
      stream-NeverFails 100 slow hello (omega arith) (omega arith)
