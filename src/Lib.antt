-- ===== src/Lib.antt =====
-- Codo: a todo service in C. A load balancer (balancer/) forwards HTTP requests to servers
-- (server/), whose handlers (api/) keep the todos in a storage engine of their own (storage/): a
-- B-tree of 4096-byte pages with a write-ahead log and transactions. common/ has what all of them
-- use: the JSON helpers, the thread pool, the cache, the HTTP parser.
--
-- How the parts meet. A handler of api/src/todo_handlers.c begins a transaction
-- (storage/src/txn.c), calls db_insert, db_search, db_delete or db_scan_prefix (storage/src/db.c)
-- with keys that api/src/todo_index.c builds, and commits. db.c walks pages that the pager gives and
-- changes them with the page operations of storage/src/btree.c, after a record of the change has
-- gone to the log (storage/src/wal.c).
--
-- Storage.Memory: reads and writes of a C buffer, as `Run`: an access outside the buffer is a
-- `fault`. A run that is `done` has stayed inside.
-- Storage.Page (storage/src/btree.c): a page is the fields of its header and the bytes of its data
-- area, 4096 - 72 of them. entry_offset, get_kv_pair, find_key_position, insert_kv_pair and
-- delete_kv_pair are the functions of those names, on any bytes; Page.Split has choose_split_index
-- and btree_split_page. Page.Entries says which pages are well formed: `Represents page entries`.
-- Loops run over a count that the page gives; the binary search has key_count rounds of fuel,
-- which are enough since each round drops an entry at least.
-- Storage.Db (storage/src/db.c): descend_to_leaf, db_search, and scan_range as db_scan_prefix;
-- Db.Delete has db_delete; Db.Grow has descend_path, grow_root, insert_separator and
-- btree_split_node, with their limits of 32 levels, where a page may be given twice: the second
-- lock of a thread is then EDEADLK, which the code ignores; Db.Insert has db_insert with its 32 attempts;
-- Db.Store has allocate_page, deallocate_page and mark_page_dirty of storage/src/pager.c. The
-- pages are a function from ids to pages, `none` where get_page fails; what get_page does (buffer
-- pool, file, eviction) is not modelled, and neither are pins and locks: the operations are those
-- of one caller at a time, which tree_lock makes sure of for insertions. A descent and a walk
-- along the leaves have fuel, since a cycle of pointers does not end in C; one round more than the
-- height and as many rounds as leaves are enough for a well-formed tree, which Db.Tree defines.
-- The messages that the operations print and the row counters are left out.
-- Storage.Wal (storage/src/wal.c): flush_wal_buffer and write_wal_record. What write(2) returns is
-- a list that the calls take from; once it is used up the last call has not returned (`blocked`).
-- The checksum is a parameter, any function of the bytes; fsync shows in nothing that is modelled.
-- Storage.Txn (storage/src/txn.c): begin_transaction, commit_transaction and abort_transaction. A
-- handle is its id on the list of active ones. Times and counters of rows are left out.
-- Todo.Index (api/src/todo_index.c): the keys of rows and of the owner index, and their parsers,
-- over decimal digits; snprintf is what `render` says of the two formats used. Todo.Index.Repair is
-- apply_index_repairs, with insertion and deletion in the tree as parameters of which nothing is
-- asked.
-- Balancer.Selection and Balancer.Health (balancer/src/selection.c, balancer/src/balancer.c): the
-- four strategies, passive_recovery, mark_backend_failure and mark_backend_success. hash() and
-- rand() are parameters; int fields are ℤ.
-- Common.Queue (common/src/thread_pool.c): the task queue with its priorities, and steal_task; a
-- call that would wait on the condition variable says so. A chain is queues[i], tails[i] and the
-- next pointers of the tasks with that priority, which are in no other chain.
-- Common.Json (common/src/json_util.c): all functions, over lists of bytes without the final NUL.
-- Common.Http (common/src/http_protocol.c): Chunked is http_chunked_decode, Numbers
-- http_parse_content_length, Range parse_range_header and resolve_range, Etag the conditions on
-- entity tags, Request parse_request_line and store_header_field, and Request.Message next_line,
-- parse_request_body and parse_http_request; Response is build_response_headers and
-- send_http_response (Response.Helpers: send_error_response, send_body_response,
-- send_json_response and send_error_json), with dates, reason phrases, the server's name and the compressor as
-- parameters. A pointer into a buffer is the list of the bytes from
-- there on. The loops over lines and chunks have fuel for the length of the input, of which each
-- round takes a byte at least. parse_http_date is a parameter, and so is which allocations succeed.
-- Common.Connection (common/src/connection.c): the growth and the release of the two buffers; the
-- 64 doublings of grow_to are enough for a 64-bit size.
-- Server.Frame (server/src/worker.c): check_request_frame, copy_header_value and conn_consume_read.
-- Frame.Agreement compares the framing with the parser of Common.Http, which goes over the same
-- bytes a second time.
-- Server.WebSocket (server/src/websocket.c): ws_decode_frame, ws_append_frame, ws_append_close,
-- ws_handle_frame and ws_process_frames, with fuel for the bytes of the read buffer. A bitwise
-- operation on a byte is written out in arithmetic.
-- Server.Routes (server/src/route.c): add_route, add_route_offloaded and find_route.
--
-- Prelude has the names that all files share: Boolean tests and lists over the native numbers,
-- slices, and the integers. Tests has each theorem at a concrete input.
--
-- Not modelled: the buffer pool and the start and recovery of the engine; the network side of
-- server/ and balancer/ (sockets, TLS, epoll), authentication, the WebSocket handshake, the
-- file responses of http_protocol.c, the cache and the rate limiter; and the handlers of api/.
pub mod Prelude
pub mod Storage
pub mod Todo
pub mod Balancer
pub mod Common
pub mod Server
mod Tests
