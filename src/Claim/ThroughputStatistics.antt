-- ===== src/Claim/ThroughputStatistics.antt =====
-- messaging/claim/ThroughputStatistics.h: the messages of the last five seconds. Times are in
-- microseconds, and `now` is what the clock shows when the call runs.
pub mod Window
use numcore_messaging_librar.Common.{
  ℕ, ◌+◌, ◌-◌, Bool, List, [], ◌∷◌, ◌++◌, leb, if◌then◌else◌, length,
}

pub record Throughput : Type 0 where
  pub time : ℕ
  pub bytes : ℕ

abbrev pub window_length : ℕ
window_length = 5000000

-- `GetElapsedSeconds() >= m_windowLength`
unfoldable pub is_old : ℕ → Throughput → Bool
is_old now t = leb window_length (now - t.time)

-- The loop stops at the first one that is not old.
unfoldable pub maintain : ℕ → List Throughput → List Throughput
unfolding is_old
maintain now [] = []
maintain now (t ∷ ts) = let rest = maintain now ts in if is_old now t then rest else t ∷ ts

unfoldable pub add_throughput : ℕ → ℕ → List Throughput → List Throughput
unfolding maintain
add_throughput now bytes ts = maintain now ts ++ (record { time = now; bytes = bytes } ∷ [])

unfoldable pub total_bytes : List Throughput → ℕ
total_bytes [] = 0
total_bytes (t ∷ ts) = t.bytes + total_bytes ts

-- The two numbers that are divided by the length of the window, and what is kept.
unfoldable pub get_throughput : ℕ → List Throughput → (ℕ × ℕ) × List Throughput
unfolding maintain total_bytes
get_throughput now ts = let kept = maintain now ts in ((length kept, total_bytes kept), kept)
