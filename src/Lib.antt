-- ===== src/Lib.antt =====
-- MiniSync keeps a backup directory, local or on a server, in step with a source directory. Its
-- client consists of three processes: a monitor (src/monitor.c) writes events to a pipe; the
-- transfer process (src/transfer.c) reads them in a scheduler thread that debounces them in a table
-- and feeds a queue (src/task_queue.c), from which worker threads take tasks and synchronise them,
-- by copying files or by sending them to the server (src/server.c) in the messages of
-- include/protocol.h; a logger (src/logger.c) writes the log. Paths are built and checked by
-- src/file_utils.c, contents are compared by the hash of src/hash.c, and bytes go through the loops
-- of src/net_utils.c.
--
-- Files, with what they model:
--   Common and below: names and lemmas on lists, C strings and Boolean tests that the rest shares.
--   Input, Output: read(2) and write(2), parameters with their documented laws; Input.Scheduled and
--     Output.Scheduled are streams that come in pieces and meet the laws.
--   Net: readn, writen, read_full and write_full of src/net_utils.c.
--   Protocol: include/protocol.h and init_sync_header, validate_sync_header, msg_type_to_string,
--     send_header, recv_header, send_path, recv_path, send_ack and send_error of src/net_utils.c. A
--     header is sent as it lies in memory, little-endian without padding.
--   Hash: src/hash.c, but for hash_to_hex. A 64-bit product keeps its wrap-around.
--   FilePath: sanitize_rel_path, join_path and get_relative_path of src/file_utils.c;
--     FilePath.Target has current_path of src/server.c and local_target_path of src/transfer.c.
--   Task, TaskQueue: include/task.h, include/task_queue.h and src/task_queue.c. The queue is a
--     linked list on an explicit heap; a call holds the mutex throughout, so it is one step.
--     TaskQueue.Fifo is what the queue promises, TaskQueue.Refine and TaskQueue.Run relate the two.
--     TaskQueue.Shared is the queue as the scheduler meets it: before each of its calls the workers
--     take and requeue tasks, and calloc can fail in each push.
--   Pending: the debounce table of src/transfer.c (pending_find, pending_remove,
--     pending_update_or_insert, pending_flush_stable_tasks, pending_flush_all, should_debounce).
--   Scheduler: scheduler_thread_main of src/transfer.c, over a list of rounds. It uses the queue
--     through TaskQueue.Shared.
--   Worker: worker_thread_main and requeue_or_fail of src/transfer.c; steps of the workers
--     interleave in any order.
--   Config: parse_client_args of src/client_main.c and parse_server_args of src/server_main.c, with
--     the configurations of include/common.h. atoi and atoll are parameters.
--   Blocks: recv_file_blocks_until_end of src/server.c, and send_file_block, send_file_end and the
--     parts of send_remote_small_file and send_remote_large_file of src/transfer.c that call them.
--     pwrite and malloc are parameters.
--   Remote: send_header_with_path, wait_for_ack and the payload of send_remote_rename of
--     src/transfer.c, with the part of server_handle_file_rename of src/server.c that takes the
--     payload apart.
--   FileSystem: the system calls on files and directories, a parameter with its documented laws;
--     FileSystem.Memory is a file system in memory that meets them.
--   FileOps: the file operations of src/file_utils.c, from ensure_dir_exists to set_file_metadata;
--     FileOps.Versions has backup_old_version and move_to_trash.
--   Local: ensure_backup_layout, sync_local_file and sync_task_local of src/transfer.c. A task is one
--     step that nothing else interrupts: what happens when several workers are at the same target,
--     whose temporary file they share without a lock, or when other programs change files meanwhile,
--     is not modelled. Nor is it in FileOps.
--   Server: src/server.c. Server.Handlers has a function for each request, and Server.Connection
--     the loop of server_handle_connection; the state is the files and both directions of the
--     connection. A handler holds server_file_mutex while it changes files, so that requests of
--     different connections follow one another.
--   Monitor: src/monitor.c. Monitor has its state, Monitor.Scan the walks over directories and
--     Monitor.Events handle_event and the loop of monitor_process. What the calls on directories
--     answer is a parameter, one for each time the monitor looks.
--   Tests: runs at concrete inputs.
--
-- Loops run on fuel or on a list of rounds. The loops over read(2) and write(2) need one round for
-- each byte that is left and each interruption that is to come, and one more; the loop over the
-- blocks of a file needs one for each block and one more; task_queue_destroy needs one for each node
-- and one more. The theorems about them say that they then give a result. calloc is the address that
-- a push is given; that it is unused is a hypothesis about each call; in TaskQueue.Shared it is a
-- Boolean for each push, which says whether it returns memory. The times of the monotonic
-- clock are arguments of a round.
--
-- The loops of copy_file_plain have the same bound, with the interruptions of reads and writes. The
-- theorems about the server's handlers are about what they leave in the files, whatever comes and
-- however long; they hold with every fuel that is enough for the file that is replaced.
--
-- The walks of the monitor have their depth as fuel, and 513 is always enough.
--
-- Not modelled: the requests of the client as a whole (sync_task_remote and the functions that it
-- calls, but for the parts above), the logger, and the set-up of processes, threads,
-- sockets and signals.
pub mod Common
pub mod Input
pub mod Output
pub mod Net
pub mod Protocol
pub mod Task
pub mod TaskQueue
pub mod Pending
pub mod Scheduler
pub mod Worker
pub mod Hash
pub mod FilePath
pub mod FileSystem
pub mod FileOps
pub mod Local
pub mod Server
pub mod Monitor
pub mod Config
pub mod Blocks
pub mod Remote
mod Tests
