-- ===== src/Crc/Tests.antt =====
-- Checksum rounds at concrete inputs.
use fujinet_intv_basketball.Base.{ℕ, zero, suc, ◌+◌, ◌<◌, ◌≡◌, refl, [], ◌∷◌, arith, All}
use fujinet_intv_basketball.Crc.{Table, waiting, report}
use fujinet_intv_basketball.Crc.Table.{report_starved}

-- 64 rounds that seat 0 alone reported before the tick wrapped.
stale : ℕ → Table
stale zero = []
stale (suc n) = (65000 + n, (0, 1) ∷ []) ∷ stale n

stale_later : (n : ℕ) → All (λ e. 3 < e.0) (stale n)
unfolding stale
stale_later zero = tt
stale_later (suc n) = (omega arith, stale_later n)

report_starved_example :
    let first = report 2 0 3 0xAA (stale 64) in
    (first ≡ (stale 64, waiting)) × (report 2 1 3 0xBB first.0 ≡ (stale 64, waiting))
unfolding stale
report_starved_example = report_starved 0 1 3 0xAA 0xBB (stale 64) refl (stale_later 64)
