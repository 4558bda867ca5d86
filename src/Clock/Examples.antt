-- ===== src/Clock/Examples.antt =====
-- The clock of src/lib.cpp at concrete times.
use phntm_bridge.Prelude.{◌≡◌, ◌<◌, ◌+◌, ◌-◌, ◌*◌, ◌/◌, ◌^◌, arith}
use phntm_bridge.Clock.{convert_to_rtp_timestamp, minus, convert_to_rtp_timestamp_lem}

convert_to_rtp_timestamp_lem_example :
    (convert_to_rtp_timestamp 2 500_000_000
      ≡ (2 * 1_000_000_000 + 500_000_000) * 90_000 / 1_000_000_000)
    × (convert_to_rtp_timestamp (minus (2 + 1)) 500_000_000
        ≡ (2 ^ 64 - ((2 + 1) * 1_000_000_000 - 500_000_000) * 90_000) / 1_000_000_000)
    × (convert_to_rtp_timestamp 1_700_000_000 500_000_000 < 1_700_000_000 * 90_000)
convert_to_rtp_timestamp_lem_example =
    convert_to_rtp_timestamp_lem 2 500_000_000 1_700_000_000 (omega arith) (omega arith)
      (omega arith)
