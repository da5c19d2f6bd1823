-- ===== src/TimeUtils/Ntp.antt =====
-- There and back.
use lmcore.Prelude.{
  ℕ, ◌+◌, ◌-◌, ◌*◌, ◌/◌, ◌%◌, ◌^◌, ◌<◌, ◌≡◌, refl, ap, ap₂, ◌∙◌, arith, true, if◌then◌else◌, ◌==◌,
  u64, sub64, bit_and, bit_or, bit_and-low, bit_or-disjoint, passes, passes_at,
}
use lmcore.TimeUtils.{ntp_epoch_offset, unix_to_ntp, ntp_to_unix}

-- The fraction of 2 ^ 32 of some milliseconds.
abbrev fraction : ℕ → ℕ
fraction f = f * 0x100000000 / 1000

abbrev back : ℕ → ℕ
back f = if f % 125 == 0 then f else f - 1

fraction_table : passes (λ f. fraction f * 1000 / 0x100000000 == back f) 1000 ≡ true
unfolding passes
fraction_table = refl

fraction_lem : (f : ℕ) → f < 1000 → fraction f * 1000 / 0x100000000 ≡ back f
fraction_lem f h =
    let e = passes_at (λ k. fraction k * 1000 / 0x100000000 == back k) 1000 f h fraction_table in
    ground arith

-- The timestamp, field by field, as long as its seconds fit 32 bits.
unix_to_ntp_lem :
    (ms : ℕ)
    → ms / 1000 + ntp_epoch_offset < 2 ^ 32
    → unix_to_ntp ms ≡ (ms / 1000 + ntp_epoch_offset) * 2 ^ 32 + fraction (ms % 1000)
unfolding unix_to_ntp
unix_to_ntp_lem ms h =
    let seconds = ms / 1000 + ntp_epoch_offset in
    let f = fraction (ms % 1000) in
    let high : u64 (u64 seconds * 2 ^ 32) ≡ seconds * 2 ^ 32 = omega arith in
    let exact : u64 (ms % 1000 * 0x100000000) / 1000 ≡ f = omega arith in
    let low : bit_and (u64 (ms % 1000 * 0x100000000) / 1000) 0xFFFFFFFF ≡ f =
      ap (λ k. bit_and k 0xFFFFFFFF) exact ∙ bit_and-low 32 f ∙ omega arith in
    ap₂ bit_or high low ∙ bit_or-disjoint 32 seconds f (omega arith)

-- A Unix time that is converted to NTP and back is the same only if its milliseconds are a multiple of
-- 125; otherwise it is one millisecond less, since both conversions round down. It holds of the times
-- until the NTP seconds leave their 32 bits.
pub ntp_to_unix-unix_to_ntp :
    (ms : ℕ)
    → ms / 1000 + ntp_epoch_offset < 2 ^ 32
    → ntp_to_unix (unix_to_ntp ms) ≡ (if ms % 125 == 0 then ms else ms - 1)
unfolding ntp_to_unix
ntp_to_unix-unix_to_ntp ms h =
    let seconds = ms / 1000 + ntp_epoch_offset in
    let f = fraction (ms % 1000) in
    let t = unix_to_ntp ms in
    let whole = unix_to_ntp_lem ms h in
    let high : t / 2 ^ 32 ≡ seconds = omega arith in
    let low : bit_and t 0xFFFFFFFF ≡ f = bit_and-low 32 t ∙ omega arith in
    let part : u64 (f * 1000) / 0x100000000 ≡ back (ms % 1000) =
      let small : u64 (f * 1000) ≡ f * 1000 = omega arith in
      ap (λ k. k / 0x100000000) small ∙ fraction_lem (ms % 1000) (omega arith) in
    ap₂ (λ s p. u64 (u64 (sub64 s ntp_epoch_offset * 1000) + u64 (p * 1000) / 0x100000000)) high low
    ∙ ap (λ p. u64 (u64 (sub64 seconds ntp_epoch_offset * 1000) + p)) part
    ∙ ground arith
