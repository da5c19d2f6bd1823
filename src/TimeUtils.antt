-- ===== src/TimeUtils.antt =====
-- src/time_utils.cpp: the conversions between Unix and NTP times and to RTP units, of `TimeUtils`.
-- The clocks are arguments. Unix times are those from 1970 on; a result of type `int64_t` is its 64
-- bits.
pub mod Ntp
mod Tests
use lmcore.Prelude.{ℕ, ◌+◌, ◌*◌, ◌/◌, ◌%◌, ◌^◌, u32, u64, sub64, ◌<<<◌, ◌>>>◌, bit_and, bit_or}

-- `NTP_EPOCH_OFFSET`
abbrev pub ntp_epoch_offset : ℕ
ntp_epoch_offset = 2208988800

pub unix_to_ntp : ℕ → ℕ
unix_to_ntp unix_time_ms =
    let unix_seconds = unix_time_ms / 1000 in
    let unix_ms_frac = unix_time_ms % 1000 in
    let ntp_seconds = u64 (unix_seconds + ntp_epoch_offset) in
    let ntp_fraction = u64 (unix_ms_frac * 0x100000000) / 1000 in
    bit_or (u64 (ntp_seconds <<< 32)) (bit_and ntp_fraction 0xFFFFFFFF)

pub ntp_to_unix : ℕ → ℕ
ntp_to_unix ntp_timestamp =
    let ntp_seconds = ntp_timestamp >>> 32 in
    let ntp_fraction = bit_and ntp_timestamp 0xFFFFFFFF in
    let unix_seconds = sub64 ntp_seconds ntp_epoch_offset in
    let unix_ms_frac = u64 (ntp_fraction * 1000) / 0x100000000 in
    u64 (u64 (unix_seconds * 1000) + unix_ms_frac)

-- `GetRtpTimestamp` at a time of the steady clock.
pub get_rtp_timestamp : ℕ → ℕ → ℕ
get_rtp_timestamp us clock_rate = u32 (bit_and (u64 (us * clock_rate) / 1000000) 0xFFFFFFFF)
