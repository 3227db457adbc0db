-- ===== src/Sync/Window.antt =====
-- The tolerance of `withinWindow`.
use shiroikuma_gcfs.Prelude.{ℕ, ◌+◌, ◌≤◌, ◌<◌, ◌≡◌, ◌↔◌, ◌^◌, true, arith}
use shiroikuma_gcfs.Sync.{within_window}

-- For two times that are not negative and a window that is not negative, all as int64, withinWindow
-- holds exactly when neither time lies behind the other by more than the window.
pub within_window_iff :
    (a b w : ℕ)
    → a < 2 ^ 63
    → b < 2 ^ 63
    → w < 2 ^ 63
    → (within_window a b w ≡ true) ↔ ((a ≤ b + w) × (b ≤ a + w))
unfolding within_window
within_window_iff a b w ha hb hw = ground arith

pub within_window_self : (a w : ℕ) → w < 2 ^ 63 → within_window a a w ≡ true
unfolding within_window
within_window_self a w hw = ground arith
