-- ===== src/Common/RetCode.antt =====
-- phxqueue/comm/errdef.h: the return codes, with their numbers.
-- `as_integer` is the number itself; callers compare it with zero.
use mathlib.Core.Bool.{Bool, true, false}
use phxqueue.Common.Tests.{◌==◌, ltb}
use phxqueue.Common.Int.{ℤ, pos, negsuc}

abbrev pub RetCode : Type 0
RetCode = ℤ

abbrev pub ret_ok : RetCode
ret_ok = pos 0

abbrev pub ret_err_no_impl : RetCode
ret_err_no_impl = pos 10101

abbrev pub ret_err_not_master : RetCode
ret_err_not_master = pos 10102

abbrev pub ret_err_version_not_equal : RetCode
ret_err_version_not_equal = pos 10103

abbrev pub ret_err_key_not_exist : RetCode
ret_err_key_not_exist = pos 10104

abbrev pub ret_err_no_master : RetCode
ret_err_no_master = pos 10105

abbrev pub ret_err_not_ready : RetCode
ret_err_not_ready = pos 10106

abbrev pub ret_key_ignore : RetCode
ret_key_ignore = pos 10107

abbrev pub ret_err_size_too_large : RetCode
ret_err_size_too_large = pos 10108

abbrev pub ret_add_skip : RetCode
ret_add_skip = pos 10201

abbrev pub ret_dir_not_exist : RetCode
ret_dir_not_exist = pos 10202

abbrev pub ret_no_lock_target : RetCode
ret_no_lock_target = pos 10301

abbrev pub ret_acquire_lock_fail : RetCode
ret_acquire_lock_fail = pos 10302

abbrev pub ret_no_need_lock : RetCode
ret_no_need_lock = pos 10303

abbrev pub ret_no_need_block : RetCode
ret_no_need_block = pos 10401

abbrev pub ret_get_scale_fail : RetCode
ret_get_scale_fail = pos 10501

abbrev pub ret_no_need_update_scale : RetCode
ret_no_need_update_scale = pos 10502

abbrev pub ret_no_live_consumer : RetCode
ret_no_live_consumer = pos 10503

abbrev pub ret_err_cursor_not_found : RetCode
ret_err_cursor_not_found = pos 10601

abbrev pub ret_err_paxos_not_chosen : RetCode
ret_err_paxos_not_chosen = pos 10701

abbrev pub ret_err_no_need_dump_checkpoint : RetCode
ret_err_no_need_dump_checkpoint = pos 10801

abbrev pub ret_err_sys : RetCode
ret_err_sys = negsuc 0

abbrev pub ret_err_arg : RetCode
ret_err_arg = negsuc 1

abbrev pub ret_err_logic : RetCode
ret_err_logic = negsuc 103

abbrev pub ret_err_uninit : RetCode
ret_err_uninit = negsuc 10000

abbrev pub ret_err_unexpected : RetCode
ret_err_unexpected = negsuc 10001

abbrev pub ret_err_range : RetCode
ret_err_range = negsuc 10100

abbrev pub ret_err_range_topic : RetCode
ret_err_range_topic = negsuc 10101

abbrev pub ret_err_range_store : RetCode
ret_err_range_store = negsuc 10102

abbrev pub ret_err_range_queue : RetCode
ret_err_range_queue = negsuc 10103

abbrev pub ret_err_range_consumer : RetCode
ret_err_range_consumer = negsuc 10104

abbrev pub ret_err_range_handle : RetCode
ret_err_range_handle = negsuc 10105

abbrev pub ret_err_range_queue_info : RetCode
ret_err_range_queue_info = negsuc 10106

abbrev pub ret_err_range_rank : RetCode
ret_err_range_rank = negsuc 10107

abbrev pub ret_err_range_cnt : RetCode
ret_err_range_cnt = negsuc 10108

abbrev pub ret_err_range_pub : RetCode
ret_err_range_pub = negsuc 10109

abbrev pub ret_err_range_consumer_group : RetCode
ret_err_range_consumer_group = negsuc 10110

abbrev pub ret_err_range_addr : RetCode
ret_err_range_addr = negsuc 10111

abbrev pub ret_err_range_scheduler : RetCode
ret_err_range_scheduler = negsuc 10112

abbrev pub ret_err_range_lock : RetCode
ret_err_range_lock = negsuc 10113

abbrev pub ret_err_range_vpid : RetCode
ret_err_range_vpid = negsuc 10114

abbrev pub ret_err_nqueue_invalid : RetCode
ret_err_nqueue_invalid = negsuc 10150

abbrev pub ret_err_get_addr_from_cache : RetCode
ret_err_get_addr_from_cache = negsuc 10200

abbrev pub ret_err_get_pending_addr : RetCode
ret_err_get_pending_addr = negsuc 10201

abbrev pub ret_err_key : RetCode
ret_err_key = negsuc 10202

abbrev pub ret_err_leveldb : RetCode
ret_err_leveldb = negsuc 10203

abbrev pub ret_err_notifier_miss : RetCode
ret_err_notifier_miss = negsuc 10204

abbrev pub ret_err_add_open_fail : RetCode
ret_err_add_open_fail = negsuc 10300

abbrev pub ret_err_add_write_fail : RetCode
ret_err_add_write_fail = negsuc 10301

abbrev pub ret_err_get_open_fail_unknow : RetCode
ret_err_get_open_fail_unknow = negsuc 10302

abbrev pub ret_err_get_adjust_cursor_id_fail : RetCode
ret_err_get_adjust_cursor_id_fail = negsuc 10303

abbrev pub ret_err_get_cursor_fail : RetCode
ret_err_get_cursor_fail = negsuc 10304

abbrev pub ret_err_get_cursor_unfound : RetCode
ret_err_get_cursor_unfound = negsuc 10305

abbrev pub ret_err_get_seek_fail : RetCode
ret_err_get_seek_fail = negsuc 10306

abbrev pub ret_err_get_invalid_buffer : RetCode
ret_err_get_invalid_buffer = negsuc 10307

abbrev pub ret_err_get_update_cursor_id_fail : RetCode
ret_err_get_update_cursor_id_fail = negsuc 10308

abbrev pub ret_err_check_master_fail : RetCode
ret_err_check_master_fail = negsuc 10309

abbrev pub ret_err_make_paxosargs_fail : RetCode
ret_err_make_paxosargs_fail = negsuc 10310

abbrev pub ret_err_propose : RetCode
ret_err_propose = negsuc 10311

abbrev pub ret_err_process_paxosargs : RetCode
ret_err_process_paxosargs = negsuc 10313

abbrev pub ret_err_get_topid_id_and_store_id_by_paxos_addr : RetCode
ret_err_get_topid_id_and_store_id_by_paxos_addr = negsuc 10314

abbrev pub ret_err_get_local_idc_store_config_by_topic_id : RetCode
ret_err_get_local_idc_store_config_by_topic_id = negsuc 10315

abbrev pub ret_err_get_store_by_store_id : RetCode
ret_err_get_store_by_store_id = negsuc 10316

abbrev pub ret_err_propose_timeout : RetCode
ret_err_propose_timeout = negsuc 10317

abbrev pub ret_err_propose_fast_reject : RetCode
ret_err_propose_fast_reject = negsuc 10318

abbrev pub ret_err_get_item_by_cursor_id : RetCode
ret_err_get_item_by_cursor_id = negsuc 10319

abbrev pub ret_err_protobuf_parse : RetCode
ret_err_protobuf_parse = negsuc 10400

abbrev pub ret_err_protobuf_serialize : RetCode
ret_err_protobuf_serialize = negsuc 10401

abbrev pub ret_err_store : RetCode
ret_err_store = negsuc 10500

abbrev pub ret_err_svr_block : RetCode
ret_err_svr_block = negsuc 10600

abbrev pub ret_err_master_client_fail : RetCode
ret_err_master_client_fail = negsuc 10601

abbrev pub ret_err_no_master_addr : RetCode
ret_err_no_master_addr = negsuc 10602

abbrev pub ret_err_mmlb : RetCode
ret_err_mmlb = negsuc 10700

abbrev pub ret_err_uncompress : RetCode
ret_err_uncompress = negsuc 10800

abbrev pub ret_err_buffer_type : RetCode
ret_err_buffer_type = negsuc 10801

abbrev pub ret_err_paxos_run_node : RetCode
ret_err_paxos_run_node = negsuc 10900

abbrev pub ret_err_paxos_get_instance_value : RetCode
ret_err_paxos_get_instance_value = negsuc 10901

abbrev pub ret_err_paxos_value_parse : RetCode
ret_err_paxos_value_parse = negsuc 10902

-- `comm::RetCode::RET_OK == ret`.
abbrev pub is_ok : RetCode → Bool
is_ok (pos n) = n == 0
is_ok (negsuc n) = false

-- `0 > as_integer(ret)`.
abbrev pub is_negative : RetCode → Bool
is_negative (pos n) = false
is_negative (negsuc n) = true

-- `0 < as_integer(ret)`.
abbrev pub is_positive : RetCode → Bool
is_positive (pos n) = ltb 0 n
is_positive (negsuc n) = false
