-- ===== src/Udp/Window/Tests.antt =====
-- Runs of the window, and its theorems at concrete puts.
use wireline.Base.{ℕ, ◌≡◌, refl, List, [], ◌∷◌}
use wireline.Base.Bytes.{Bytes}
use wireline.Udp.Window.{new_window, put}
use wireline.Udp.Window.History.{put_all, store_all, last, window_of_history}

abbrev puts : List (ℕ × Bytes)
puts = (1, 10 ∷ []) ∷ (2, 20 ∷ []) ∷ (1, 11 ∷ []) ∷ (3, []) ∷ []

window_of_puts :
    put_all puts (new_window 2) ≡ record { size = 2; entries = (1, 11 ∷ []) ∷ (3, []) ∷ [] }
unfolding put_all put
window_of_puts = refl

window_of_history_example :
    put_all puts (new_window 2) ≡ record { size = 2; entries = last 2 (store_all puts []) }
window_of_history_example = window_of_history 2 puts
