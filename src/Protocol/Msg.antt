-- ===== src/Protocol/Msg.antt =====
-- The message types of include/protocol.h.
use mini_sync.Common.{ℕ}

abbrev pub hello : ℕ
hello = 1

abbrev pub file_begin : ℕ
file_begin = 2

abbrev pub file_block : ℕ
file_block = 3

abbrev pub file_end : ℕ
file_end = 4

abbrev pub file_delete : ℕ
file_delete = 5

abbrev pub file_rename : ℕ
file_rename = 6

abbrev pub query_offset : ℕ
query_offset = 7

abbrev pub offset_reply : ℕ
offset_reply = 8

abbrev pub ack : ℕ
ack = 9

abbrev pub error : ℕ
error = 10

abbrev pub exit : ℕ
exit = 99
