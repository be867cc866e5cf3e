-- ===== src/Collector/Throughput/Width.antt =====
-- `throughputWindow` of internal/collector/throughput.go: where the window that is asked about lies.
use streamsight_agent.Base.{
  ℕ, zero, suc, ◌+◌, ◌*◌, ◌/◌, ◌≡◌, ◌≤◌, ◌<◌, ℤ, pos, negsuc, refl, ltb_ℤ, true, false, leb, inl,
  inr, Bool-cases, arith,
}
use streamsight_agent.Collector.Throughput.{positive_width, millis_before, throughput_window}

-- The width that was asked for, if it is positive, and five minutes otherwise.
pub IsWidth : ℤ → ℕ → Type 0
IsWidth width w =
    (0 < w)
    × (ltb_ℤ (pos 0) width ≡ true → width ≡ pos w)
    × (ltb_ℤ (pos 0) width ≡ false → w ≡ 300000000000)

positive_width-IsWidth : (width : ℤ) → IsWidth width (positive_width width)
unfolding IsWidth
positive_width-IsWidth (pos zero) = (omega arith, λ h. ground (arith, h), λ h. refl)
positive_width-IsWidth (pos (suc n)) = (omega arith, λ h. refl, λ h. ground (arith, h))
positive_width-IsWidth (negsuc n) = (omega arith, λ h. ground (arith, h), λ h. refl)

-- A millisecond `ms` that begins at the instant `at - width`, or less than a millisecond before it.
pub BeginsAt : ℕ → ℕ → ℤ → Type 0
BeginsAt at width (pos q) = (q * 1000000 + width ≤ at) × (at < suc q * 1000000 + width)
BeginsAt at width (negsuc k) = (at + k * 1000000 < width) × (width ≤ at + suc k * 1000000)

millis_before-BeginsAt : (at width : ℕ) → BeginsAt at width (millis_before at width)
unfolding BeginsAt
millis_before-BeginsAt at width = elim (Bool-cases (leb width at)) [
  | inl h ↦ rw (h) (ground (arith, h))
  | inr h ↦ rw (h) (ground (arith, h))
]

-- The window begins one width before the clock's instant, to the millisecond, and its width is the
-- one that was asked for, or five minutes if that is not positive.
throughput_window-BeginsAt :
    (at : ℕ) (width : ℤ)
    → (w : ℕ) × IsWidth width w
      × BeginsAt at w (throughput_window at width).requested_ms
      × ((throughput_window at width).width_ms ≡ pos (w / 1000000))
unfolding throughput_window
throughput_window-BeginsAt at width =
    let w = positive_width width in
    (w, positive_width-IsWidth width, millis_before-BeginsAt at w, refl)
