-- ===== src/Clock.antt =====
-- The RTP clock of src/lib.cpp: convertToRtpTimestamp. `sec` is the bit pattern of an `int32_t`,
-- `nanosec` a `uint32_t`, and all else is `uint64_t` arithmetic, which wraps.
pub mod Examples
use phntm_bridge.Prelude.{
  ℕ, ◌+◌, ◌-◌, ◌*◌, ◌/◌, ◌%◌, ◌^◌, ◌<◌, ◌≤◌, ◌≡◌, Bool, ltb, if◌then◌else◌, arith,
}

abbrev u64 : ℕ
u64 = 2 ^ 64

-- static_cast<uint64_t>(sec): the sign is extended.
abbrev sign_extend : ℕ → ℕ
sign_extend sec = if ltb sec (2 ^ 31) then sec else sec + (u64 - 2 ^ 32)

abbrev ns_per_sec : ℕ
ns_per_sec = 1_000_000_000

abbrev clock_rate : ℕ
clock_rate = 90_000

unfoldable pub convert_to_rtp_timestamp : ℕ → ℕ → ℕ
convert_to_rtp_timestamp sec nanosec =
    let total_ns = (sign_extend sec * ns_per_sec + nanosec) % u64 in
    (total_ns * clock_rate) % u64 / ns_per_sec

-- The bit pattern of a negative number of 32 bits.
abbrev pub minus : ℕ → ℕ
minus n = 2 ^ 32 - n

exact :
    (sec nanosec : ℕ)
    → sec < 204_963
    → nanosec < 1_000_000_000
    → convert_to_rtp_timestamp sec nanosec
      ≡ (sec * 1_000_000_000 + nanosec) * 90_000 / 1_000_000_000
unfolding convert_to_rtp_timestamp
exact sec nanosec h k = ground arith

before_epoch :
    (sec nanosec : ℕ)
    → sec < 204_962
    → nanosec < 1_000_000_000
    → convert_to_rtp_timestamp (minus (sec + 1)) nanosec
      ≡ (2 ^ 64 - ((sec + 1) * 1_000_000_000 - nanosec) * 90_000) / 1_000_000_000
unfolding convert_to_rtp_timestamp
before_epoch sec nanosec h k = ground arith

behind : (sec nanosec : ℕ) → 204_964 ≤ sec → convert_to_rtp_timestamp sec nanosec < sec * 90_000
unfolding convert_to_rtp_timestamp
behind sec nanosec h = omega arith

-- The result is the time in units of 1/90000 s, rounded down, for the first 204962 seconds after the
-- epoch. As far before the epoch, it is what 2^64 less the nanoseconds up to it, times 90000, gives when it is divided by 10^9.
-- And for every bit pattern of the seconds from 204964 on, it is less than that number of seconds in
-- units of 1/90000 s: the product has wrapped.
pub convert_to_rtp_timestamp_lem :
    (sec nanosec late : ℕ)
    → sec < 204_962
    → nanosec < 1_000_000_000
    → 204_964 ≤ late
    → (convert_to_rtp_timestamp sec nanosec
        ≡ (sec * 1_000_000_000 + nanosec) * 90_000 / 1_000_000_000)
      × (convert_to_rtp_timestamp (minus (sec + 1)) nanosec
          ≡ (2 ^ 64 - ((sec + 1) * 1_000_000_000 - nanosec) * 90_000) / 1_000_000_000)
      × (convert_to_rtp_timestamp late nanosec < late * 90_000)
convert_to_rtp_timestamp_lem sec nanosec late h k l =
    (exact sec nanosec (omega arith) k, before_epoch sec nanosec h k, behind late nanosec l)
