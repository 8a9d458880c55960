-- ===== src/Lib.antt =====
-- PhxQueue: a distributed queue over Paxos. Producers propose items to a group of store nodes, each
-- store node executes the chosen values and hands the items out to consumers by cursor, lock nodes
-- keep leases by which consumers share queues, and schedulers spread the queues over live consumers.
--
-- What is modelled, file by file (paths from the repository's root):
--   Common            names shared by all; Common/RetCode is phxqueue/comm/errdef.h, the return codes
--                     as the signed numbers that they are; Common/Int the signed `int`.
--   Common/Key        keys of ordered maps; Common/Dict std::map as the ascending list of its entries,
--                     whose iterator is the rest of the list.
--   Lock/Disk         the parameter for LevelDB and the generated message code, and the documented
--                     behaviour that some theorems name.
--   Lock/Db           phxqueue/lock/lockdb.cpp: LockDb, each method a function of the database; the
--                     iterators, Sync and ForwardLoopKey are in Lock/Db/Walk.
--   Lock/Group        phxqueue/lock/lockmgr.cpp: LockMgr for one group of its vector (GroupData): the
--                     checkpoints and, in init_group, the group's turn in Init. Its loop over the
--                     mirror has fuel for one round more than there are entries, which is enough.
--                     Lock/Group/Decimal is to_string and strtoul of the standard library.
--   Lock/Group/Machine  phxqueue/lock/locksm.cpp: DoExecute is do_execute, Execute execute,
--                     ExecuteForCheckpoint execute_for_checkpoint. A value of the log is what the
--                     generated parser makes of its bytes.
--   Lock/Group/Clean  phxqueue/lock/cleanthread.cpp: CleanRecord is clean_record, with next_stale for
--                     what a round does up to its proposal; WriteRestartCheckpoint is
--                     write_restart_if_idle. The cleaner and the state machine meet in the log: what
--                     one proposes the other executes later.
--   Lock/Node         phxqueue/lock/lock.cpp: the requests that a client makes (GetString is
--                     serve_get_string, SetString serve_set_string, DeleteString serve_delete_string,
--                     GetLockInfo serve_get_lock_info, AcquireLock serve_acquire_lock) on the group
--                     that the hash of the key picks, and CheckMaster, check_master. What phxpaxos
--                     answers, and the group by then, is the parameter propose.
--   Lock/Sample       a disk of the tests' own.
--   Scheduler         phxqueue/scheduler: Scheduler/Topic is schedulermgr.h (MeanVector, ConsumerInfo,
--                     TopicData), Scheduler/Balance the loads and weights of schedulermgr.cpp (UpdateLive
--                     is update_live, GetMeanLoad get_mean_load, CheckImbalance check_imbalance,
--                     AdjustScale adjust_scale), Scheduler/Reload ReloadTopicConfig and
--                     ReloadConsumerConfig, Scheduler/Manager GetAddrScale, IsMaster, GetMode and the
--                     turn of a topic in LoadBalance, balance_topic. The types `float` and `double` are
--                     the parameter Float, of whose rounding nothing is assumed. A consumer goes by the
--                     code of its address, and a loop that runs past the end of its map gives `none`.
--   Store/Meta        phxqueue/store/storemeta.cpp: StoreMeta (meta_of, update_crc, check_crc, ...)
--                     and StoreMetaQueue, each method a function of the queue that returns the new
--                     one: Next is next, PushBack push_back, Front and Back front and back,
--                     EraseFrontTill erase_front_till, EraseFrontUntill erase_front_until, LowerBound
--                     find_lower_bound, UpdateDeuqueStat update_dequeue_stat, SizeGT size_gt, Clear
--                     clear, ClearDequeueStat clear_dequeue_stat. `std::set` is its list of elements
--                     in ascending order, and an iterator is the rest of that list. zlib's `crc32` is
--                     an argument, of which nothing is assumed.
--   Store/Sync        phxqueue/store/syncctrl.cpp: SyncCtrl over the list of its slots, each method
--                     a function that returns the code and the new state. `Item.reserved`, the locks
--                     and the mapping of the file are left out: a write is seen at once, as it is
--                     through the mapping.
--                     SyncCursorID is in Store/Machine.
--   Store/CheckPoint  phxqueue/store/checkpointstat.cpp: GetCheckPoint, UpdateCheckPointAndFlush.
--   Store/Base        phxqueue/store/basemgr.cpp: BaseMgr over the list of its queues. Add is add,
--                     NeedSkipAdd need_skip_add, GetItemsByCursorID get_items_by_cursor_id. The loop of
--                     Get is scan, of at most the 512 rounds that the code allows, a round of it
--                     round, and all of Get is get in Store/Base/Get,
--                     with get_from for what it does from its loop on. What the topic's configuration
--                     and the paxos node answer are the parameters Topic and Chosen.
--   Store/Machine     phxqueue/store/storesm.cpp: Execute is execute; SyncCursorID of
--                     phxqueue/store/syncctrl.cpp is sync_cursor_id.
--
-- A `uint64_t` cursor is a natural number of at most `no_cursor`, which is UINT64_MAX and stands for
-- the `-1` of the source. The 32-bit index of a cursor wraps, as compiled code does. The mutexes are
-- not modelled: each method takes its lock for its whole body, so a call is one step.
-- A steady clock is an argument for each reading of it. `phxpaxos::NoCheckpoint` is an argument.
--
-- Not modelled: threads, start-up, sockets, files and logging; the RPC stubs, which are generated. Init and
-- Dispose of the scheduler. The producer, the consumer and the configuration's tables: remote calls,
-- processes and files around choices that the modelled parts do not see.
pub mod Common
pub mod Lock
pub mod Scheduler
pub mod Store
