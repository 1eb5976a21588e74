-- ===== src/Udp/Window.antt =====
-- `DedupWindow` of src/wireline/transport/udp.py: the last sequence numbers of a peer with the
-- replies that they produced.
pub mod History
mod Tests
use wireline.Base.{Option, none, some, List, [], ◌∷◌, ◌++◌, ltb, ◌==◌, if◌then◌else◌, length, ℕ}
use wireline.Base.Bytes.{Bytes}

-- The items of an `OrderedDict[int, bytes]`, the oldest first; its keys are distinct.
abbrev pub Entries : Type 0
Entries = List (ℕ × Bytes)

pub record DedupWindow : Type 0 where
  pub size : ℕ
  pub entries : Entries

-- `DedupWindow(size)`
abbrev pub new_window : ℕ → DedupWindow
new_window size = record { size = size; entries = [] }

-- `self._entries.get(seq)`
unfoldable pub find : ℕ → Entries → Option Bytes
find seq [] = none
find seq ((k, reply) ∷ rest) = if k == seq then some reply else find seq rest

unfoldable pub remove : ℕ → Entries → Entries
remove seq [] = []
remove seq ((k, reply) ∷ rest) =
    let rest' = remove seq rest in if k == seq then rest' else (k, reply) ∷ rest'

-- `self._entries[seq] = reply; self._entries.move_to_end(seq)`
unfoldable pub store : ℕ → Bytes → Entries → Entries
unfolding remove
store seq reply entries = remove seq entries ++ (seq, reply) ∷ []

-- `while len(self._entries) > self._size: self._entries.popitem(last=False)`
unfoldable pub evict : ℕ → Entries → Entries
evict size [] = []
evict size (e ∷ rest) =
    let shorter = evict size rest in if ltb size (length (e ∷ rest)) then shorter else e ∷ rest

unfoldable pub get : ℕ → DedupWindow → Option Bytes
unfolding find
get seq w = find seq w.entries

unfoldable pub put : ℕ → Bytes → DedupWindow → DedupWindow
unfolding store evict
put seq reply w = record w { entries = evict w.size (store seq reply w.entries) }
