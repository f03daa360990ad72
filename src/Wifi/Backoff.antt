-- ===== src/Wifi/Backoff.antt =====
-- wifi_manager.cpp: the pause after a failed attempt, and the linger.
use beer_tab.Common.{ℕ, zero, suc, ◌+◌, ◌^◌, ◌≤◌, ◌<◌, ◌≡◌, Bool, true, false, sub32, u32, arith}
use beer_tab.Wifi.{Wifi, connecting, failed, backoff_ms, is_idle, is_up, update}

-- Two seconds at least, a minute at most, and never less after more failures.
pub backoff_bounds :
    (failures : ℕ)
    → (2000 ≤ backoff_ms failures)
      × (backoff_ms failures ≤ 60000)
      × (backoff_ms failures ≤ backoff_ms (suc failures))
unfolding backoff_ms
backoff_bounds zero = omega arith
backoff_bounds (suc zero) = omega arith
backoff_bounds (suc (suc zero)) = omega arith
backoff_bounds (suc (suc (suc zero))) = omega arith
backoff_bounds (suc (suc (suc (suc zero)))) = omega arith
backoff_bounds (suc (suc (suc (suc (suc n))))) = ground arith

-- When nothing has asked for the radio, or the linger window is over, an update leaves it neither
-- connected nor connecting.
pub update_idle :
    (w : Wifi) (now : ℕ) (link_up : Bool)
    → is_idle w now ≡ true
    → is_up (update w now link_up).state ≡ false
unfolding update
update_idle w now link_up h = ground arith

-- While the radio is wanted, an attempt that has not connected in fifteen seconds is given up, and
-- the next one waits for the pause that belongs to the failures counted.
pub update_timeout :
    (w : Wifi) (now : ℕ)
    → w.state ≡ connecting
    → is_idle w now ≡ false
    → 15000 < sub32 now w.attempt_started
    → sub32 now w.attempt_started < 2 ^ 31
    → w.failures < 255
    → ((update w now false).state ≡ failed)
      × ((update w now false).failures ≡ w.failures + 1)
      × ((update w now false).retry_after ≡ u32 (now + backoff_ms (w.failures + 1)))
unfolding update
update_timeout w now s i late soon f = ground arith
