-- ===== src/TimeUtils/Tests.antt =====
-- Conversions of times.
use lmcore.Prelude.{◌≡◌, arith}
use lmcore.TimeUtils.{unix_to_ntp, ntp_to_unix}
use lmcore.TimeUtils.Ntp.{ntp_to_unix-unix_to_ntp}

ntp_to_unix-unix_to_ntp_example : ntp_to_unix (unix_to_ntp 1700000000001) ≡ 1700000000000
ntp_to_unix-unix_to_ntp_example = ntp_to_unix-unix_to_ntp 1700000000001 (omega arith)
