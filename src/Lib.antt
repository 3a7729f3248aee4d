-- ===== src/Lib.antt =====
-- UCMQ: a message queue server over HTTP. Clients put messages into named queues and get them out
-- in order; each queue keeps its messages in mapped data files of a fixed size, and its positions
-- and settings in a record file, a line for each call.
--
-- Parts, from the bottom up. Crc16 models source/crc16.c, the checksum of a message body. Types
-- holds the constants and structures of source/mq_util.h, Config the settings of
-- source/mq_config.h and their reading (Config/Read), Ini the files that they are read from, of
-- source/ini.c: the table of keys and values, the array of a key's values (Ini/Values), and
-- variables (Ini/Replace). Os is the operating system as the program uses it: a record of
-- operations on files, descriptors and mappings, with laws (IsLawful) that say that a mapping's
-- bytes behave as memory and that writes to other files and synchronisations leave them alone, as
-- they do for a program that maps no file twice. StoreMsg models the layout, the parser and the
-- count of messages of source/mq_store_msg.c; StoreFile the files of source/mq_store_file.c, with
-- mq_sm_db_write_msg (StoreFile/WriteMsg), which switches files, get_next_read_file
-- (StoreFile/ReadFile) and find_handle_file (StoreFile/Find), which looks for the files of a
-- queue. StoreRtag models the record file of source/mq_store_rtag.c: printing, parsing, and the
-- search for the last good line (StoreRtag/Recovery), also behind the writing of Io
-- (StoreRtag/Recorded). StoreManage models source/mq_store_manage.c: put (mq_sm_put_data), get
-- (GetData), the count (Count), and opening, creating, closing and removing a queue's files.
-- QueueManage models source/mq_queue_manage.c: mq_qm_push_item, mq_qm_pop_item and the settings;
-- QueueManage/Table the table of queues, with what closing the store gives back in
-- QueueManage/Table/Closed, QueueManage/Start what opens them when the program starts. Http models
-- the request handlers of source/mq_evhttp.c: Put, Get, Settings, Remove, the entry (Entry) and
-- the timers (Timers). Client models client/c/mq_client.c: the text of a request (Request),
-- receiving (Receive), the reply (Header), sockets (Socket), one request to one server (Operate),
-- the order of the servers and the calls of the library (Failover), and mq_init (Init); its
-- network is a record of operations too. Io models source/file.c, reading and writing with
-- time-outs (Io/Transfer), on a record of calls of its own, with the times of source/util.c and
-- source/mq_errno.c; Util the other utilities of source/util.c and source/mq_util.c, with
-- directories in Util/Directories; Log source/log.c, with the time of a line in Log/Clock; Trace
-- source/trace.c. Http/Exec and Http/Pages model the administrator's /exec and /stat. Main models
-- source/main.c and the set-up of the server: options, the life of the store and of the event
-- loop.
--
-- State is passed on: an operation takes the system and the queue and gives both back. Code that
-- may touch memory that is not mapped runs in Run, where such an access is a fault. A queue is the
-- record MqQueue; a descriptor or mapping that is not there is none. An int is its 32-bit pattern;
-- additions of uint32_t and uint64_t wrap around as written. Names and message bodies are lists of
-- bytes. The clock and the functions atoi and atoll are arguments.
--
-- Fuel. mq_sm_get_data loops while it skips damaged bytes or changes files; the model takes a
-- number of rounds. Where the read position is at a message, or at the end, one round is used. On
-- damaged bytes it takes at most a round for each byte. The count of a file's messages takes one
-- round more than there are bytes, since each round moves on. mq_sm_rtag_read_item takes a number
-- of records to go back. The client's loops over interrupted calls take a number of rounds, and
-- its receiving takes one for each byte at most. Writing takes a round for each byte at most; the
-- loops over interrupted calls, and the depth of directories that are deleted, take a number of
-- rounds.
--
-- A queue is said to hold a list of entries (StoreManage/Fifo, Represents) when both ends are in
-- one mapped file and the bytes between its positions are these messages. Where the write file is
-- the next one, TwoFiles (StoreManage/TwoFiles) says what lies in both: a put that does not fit
-- leads from the one to the other (StoreManage/Rollover), and a get at the end of the read file
-- leads back (StoreManage/Switch). A queue of three files or more has no such predicate. When a
-- directory is searched, its listing is fixed when it is opened.
--
-- Not modelled: what libevent does, the reply headers of the main entry but Pos, the process id
-- file, signals and forks of source/main.c, the lock between threads of the log, the hash table
-- library, the texts of the C client's errors, and the PHP client. A body of 2 ^ 32 bytes or more
-- is outside the model. Fixed reply texts are strings; the status texts of the main entry are the
-- values that they print. The arithmetic of doubles, in times and percentages, is an argument.
pub mod Prelude
pub mod Crc16
pub mod Types
pub mod StoreMsg
pub mod Os
pub mod StoreRtag
pub mod Config
pub mod Ini
pub mod StoreFile
pub mod StoreManage
pub mod QueueManage
pub mod Http
pub mod Client
pub mod Io
pub mod Util
pub mod Log
pub mod Trace
pub mod Main
pub mod Tests
