-- ===== src/Protocol/Wire.antt =====
-- A header of include/protocol.h and its bytes.
use native.Mathlib.Nat.{pow-suc}
use mini_sync.Common.{ℕ, zero, suc, ◌/◌, ◌^◌, ◌<◌, ◌≡◌, refl, ap, arith, length}
use mini_sync.Protocol.{SyncHeader, to_bytes, of_bytes, header_bytes, header_of_bytes, header_size}

-- The ranges of the C types of the fields.
pub record IsHeader (h : SyncHeader) : Type 0 where
  pub magic : h.magic < 2 ^ 32
  pub version : h.version < 2 ^ 32
  pub msg_type : h.msg_type < 2 ^ 32
  pub path_len : h.path_len < 2 ^ 32
  pub file_size : h.file_size < 2 ^ 64
  pub offset : h.offset < 2 ^ 64
  pub data_len : h.data_len < 2 ^ 32
  pub mode : h.mode < 2 ^ 32
  pub mtime : h.mtime < 2 ^ 64
  pub total_hash : h.total_hash < 2 ^ 64
  pub block_hash : h.block_hash < 2 ^ 64

pub length-to_bytes : (k n : ℕ) → length (to_bytes k n) ≡ k
unfolding to_bytes
length-to_bytes zero n = refl
length-to_bytes (suc k) n = ap suc (length-to_bytes k (n / 256))

of_bytes-to_bytes : (k n : ℕ) → n < 256 ^ k → of_bytes (to_bytes k n) ≡ n
unfolding to_bytes of_bytes
of_bytes-to_bytes zero n h = omega arith
of_bytes-to_bytes (suc k) n h =
    omega (arith, pow-suc 256 k, of_bytes-to_bytes k (n / 256) (omega (arith, pow-suc 256 k)))

pub length-header_bytes : (h : SyncHeader) → length (header_bytes h) ≡ header_size
unfolding header_bytes
length-header_bytes h = refl

-- A header whose fields fit their C types is read back as it was written, field by field.
pub header_of_bytes-header_bytes :
    (h : SyncHeader) → IsHeader h → header_of_bytes (header_bytes h) ≡ h
unfolding header_of_bytes header_bytes
header_of_bytes-header_bytes h v = λ i. record {
  magic = of_bytes-to_bytes 4 h.magic v.magic i;
  version = of_bytes-to_bytes 4 h.version v.version i;
  msg_type = of_bytes-to_bytes 4 h.msg_type v.msg_type i;
  path_len = of_bytes-to_bytes 4 h.path_len v.path_len i;
  file_size = of_bytes-to_bytes 8 h.file_size v.file_size i;
  offset = of_bytes-to_bytes 8 h.offset v.offset i;
  data_len = of_bytes-to_bytes 4 h.data_len v.data_len i;
  mode = of_bytes-to_bytes 4 h.mode v.mode i;
  mtime = of_bytes-to_bytes 8 h.mtime v.mtime i;
  total_hash = of_bytes-to_bytes 8 h.total_hash v.total_hash i;
  block_hash = of_bytes-to_bytes 8 h.block_hash v.block_hash i;
}
