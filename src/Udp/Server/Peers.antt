-- ===== src/Udp/Server/Peers.antt =====
-- The peers of `UdpServer` (src/wireline/transport/udp.py) as a dictionary, and the reply that a
-- window keeps.
use wireline.Base.{
  ℕ, zero, suc, ◌-◌, ◌<◌, ◌≡◌, refl, ap, ◌∙◌, none, some, List, [], ◌∷◌, ◌++◌, arith, length, drop,
}
use wireline.Base.Bytes.{Bytes}
use wireline.Udp.Window.{Entries, DedupWindow, find, remove, store, get, put}
use wireline.Udp.Window.History.{last, evict-last, last_snoc}
use wireline.Udp.Server.{Peer, find_peer, set_peer, delete_peer}

pub find_peer-set_peer :
    (addr : ℕ) (p : Peer) (ps : List (ℕ × Peer)) → find_peer addr (set_peer addr p ps) ≡ some p
unfolding find_peer set_peer
find_peer-set_peer addr p [] = ground arith
find_peer-set_peer addr p ((a, q) ∷ rest) = ground (arith, find_peer-set_peer addr p rest)

pub find_peer-delete_peer :
    (addr : ℕ) (ps : List (ℕ × Peer)) → find_peer addr (delete_peer addr ps) ≡ none
unfolding find_peer delete_peer
find_peer-delete_peer addr [] = refl
find_peer-delete_peer addr ((a, q) ∷ rest) = ground (arith, find_peer-delete_peer addr rest)

-- Writing back the peer that is there changes nothing.
pub set_peer-find_peer :
    (addr : ℕ) (p : Peer) (ps : List (ℕ × Peer))
    → find_peer addr ps ≡ some p
    → set_peer addr p ps ≡ ps
unfolding find_peer set_peer
set_peer-find_peer addr p [] h = cc
set_peer-find_peer addr p ((a, q) ∷ rest) h = ground (arith, set_peer-find_peer addr p rest)

find-remove : (k : ℕ) (es : Entries) → find k (remove k es) ≡ none
unfolding find remove
find-remove k [] = refl
find-remove k ((j, r) ∷ rest) = ground (arith, find-remove k rest)

pub find-drop : (k n : ℕ) (es : Entries) → find k es ≡ none → find k (drop n es) ≡ none
unfolding find
find-drop k zero es h = h
find-drop k (suc n) [] h = refl
find-drop k (suc n) ((j, r) ∷ rest) h = find-drop k n rest (ground arith)

find-snoc :
    (k : ℕ) (reply : Bytes) (es : Entries)
    → find k es ≡ none
    → find k (es ++ (k, reply) ∷ []) ≡ some reply
unfolding find
find-snoc k reply [] h = ground arith
find-snoc k reply ((j, r) ∷ rest) h = ground (arith, find-snoc k reply rest)

-- A window with room for one entry has the reply that was put last.
pub get-put_self :
    (k : ℕ) (reply : Bytes) (w : DedupWindow) → 0 < w.size → get k (put k reply w) ≡ some reply
unfolding get put store
get-put_self k reply w h =
    let n : ℕ = w.size - 1 in
    let e : w.size ≡ suc n = omega arith in
    let kept = remove k w.entries in
    ap (find k) (
      evict-last w.size (kept ++ (k, reply) ∷ [])
      ∙ ap (λ m. last m (kept ++ (k, reply) ∷ [])) e
      ∙ last_snoc n (k, reply) kept)
    ∙ find-snoc k reply (last n kept) (find-drop k (length kept - n) kept (find-remove k w.entries))
