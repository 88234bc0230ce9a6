-- ===== src/Kafka/Errors/Codes.antt =====
-- packages/kafka/src/kafka-errors.ts, `ERR`: one constructor for each code that the registry
-- distinguishes, with its number.
use nodejs_basics.Prelude.Int.{ℤ, pos, neg}

pub data Err : Type 0 where
  invalid_msg : Err
  unknown_topic_or_part : Err
  leader_not_available : Err
  not_leader_for_partition : Err
  request_timed_out : Err
  msg_size_too_large : Err
  network_exception : Err
  topic_exception : Err
  record_list_too_large : Err
  not_enough_replicas : Err
  not_enough_replicas_after_append : Err
  topic_authorization_failed : Err
  cluster_authorization_failed : Err
  policy_violation : Err
  kafka_storage_error : Err
  invalid_record : Err
  throttling_quota_exceeded : Err
  local_bad_msg : Err
  local_transport : Err
  local_msg_timed_out : Err
  local_unknown_partition : Err
  local_unknown_topic : Err
  local_all_brokers_down : Err
  local_timed_out : Err
  local_queue_full : Err
  local_authentication : Err
  local_fatal : Err

abbrev pub code : Err → ℤ
code invalid_msg = pos 2
code unknown_topic_or_part = pos 3
code leader_not_available = pos 5
code not_leader_for_partition = pos 6
code request_timed_out = pos 7
code msg_size_too_large = pos 10
code network_exception = pos 13
code topic_exception = pos 17
code record_list_too_large = pos 18
code not_enough_replicas = pos 19
code not_enough_replicas_after_append = pos 20
code topic_authorization_failed = pos 29
code cluster_authorization_failed = pos 31
code policy_violation = pos 44
code kafka_storage_error = pos 56
code invalid_record = pos 87
code throttling_quota_exceeded = pos 89
code local_bad_msg = neg 199
code local_transport = neg 195
code local_msg_timed_out = neg 192
code local_unknown_partition = neg 190
code local_unknown_topic = neg 188
code local_all_brokers_down = neg 187
code local_timed_out = neg 185
code local_queue_full = neg 184
code local_authentication = neg 169
code local_fatal = neg 150
