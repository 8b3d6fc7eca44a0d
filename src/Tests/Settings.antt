-- ===== src/Tests/Settings.antt =====
-- nsqd/client_v2.go: IDENTIFY with the limits that nsqd has by default.
use nsq.Common.{◌≡◌, refl, false, arith, inr}
use nsq.Nsqd.Client.Settings.{
  pos, negsuc, Limits, Settings, IdentifyData, set_heartbeat_interval, set_output_buffer,
  set_output_timeout, set_output_size, identify_settings,
}
use nsq.Nsqd.Client.Settings.Ranges.{IsWithin, identify_settings-IsWithin}

abbrev limits : Limits
limits = record {
  max_heartbeat_interval = 60000000000;
  min_output_buffer_timeout = 25000000;
  max_output_buffer_timeout = 30000000000;
  max_output_buffer_size = 65536;
  max_msg_timeout = 900000000000;
}

abbrev settings : Settings
settings = record {
  heartbeat_interval = 30000000000;
  output_buffer_timeout = 250000000;
  output_buffer_size = 16384;
  sample_rate = 0;
  msg_timeout = 60000000000;
}

settings-IsWithin : IsWithin limits settings
settings-IsWithin = record {
  heartbeat = inr (omega arith, omega arith);
  output_timeout = inr (omega arith, omega arith);
  output_size = (inr (omega arith), omega arith);
  rate = omega arith;
  timeout = (omega arith, omega arith);
}

-- The timeout is accepted and the size is not.
abbrev request : IdentifyData
request = record {
  heartbeat_interval = negsuc 0;
  output_buffer_size = pos 10;
  output_buffer_timeout = pos 100;
  sample_rate = pos 0;
  msg_timeout = pos 0;
}

changed_and_refused :
    identify_settings limits false settings request
    ≡ (record settings { heartbeat_interval = 0; output_buffer_timeout = 100000000 }, false)
unfolding identify_settings set_heartbeat_interval set_output_buffer set_output_timeout
    set_output_size
changed_and_refused = refl

identify_settings-IsWithin_example :
    IsWithin limits (identify_settings limits false settings request).0
identify_settings-IsWithin_example =
    identify_settings-IsWithin limits false settings request settings-IsWithin
