-- ===== src/Raft/Log/Numbered.antt =====
-- Logs whose entries carry consecutive indices: a search by index is an access by position.
use raft_craft.Prelude.{
  All, ℕ, zero, suc, ◌+◌, ◌≤◌, ◌<◌, ◌≡◌, refl, ◌==◌, Bool, false, List, [], ◌∷◌, ◌++◌, none, some,
  arith, length, get_elem?, take, drop, last, filter, find, any, position, map_or, ltb, leb, ◌&&◌,
  if◌then◌else◌,
}
use raft_craft.Protocol.{LogEntry}

abbrev pub IsNumbered : ℕ → List LogEntry → Type 0
IsNumbered k [] = Unit {0}
IsNumbered k (e ∷ log) = (e.index ≡ k) × IsNumbered (suc k) log

abbrev pub has_index : ℕ → LogEntry → Bool
has_index i e = e.index == i

any_before :
    (k i t : ℕ) (log : List LogEntry)
    → IsNumbered k log
    → i < k
    → any (λ e. (e.index == i) && (e.term == t)) log ≡ false
unfolding any
any_before k i t [] w h = refl
any_before k i t (e ∷ log) w h = ground (arith, any_before (suc k) i t log w.1)

pub filter_all :
    (k i : ℕ) (log : List LogEntry)
    → IsNumbered k log
    → i ≤ k
    → filter (λ e. leb i e.index) log ≡ log
unfolding filter
filter_all k i [] w h = refl
filter_all k i (e ∷ log) w h = ground (arith, filter_all (suc k) i log w.1)

-- In these lemmas `i` is the index of the entry at position `n`.
pub position-numbered :
    (k n i : ℕ) (log : List LogEntry)
    → IsNumbered k log
    → i ≡ n + k
    → position (has_index i) log ≡ (if ltb n (length log) then some n else none)
unfolding position
position-numbered k n i [] w h = ground arith
position-numbered k zero i (e ∷ log) w h = ground arith
position-numbered k (suc n) i (e ∷ log) w h = ground (arith, position-numbered (suc k) n i log w.1)

pub find-numbered :
    (k n i : ℕ) (log : List LogEntry)
    → IsNumbered k log
    → i ≡ n + k
    → find (has_index i) log ≡ get_elem? log n
unfolding find
find-numbered k n i [] w h = refl
find-numbered k zero i (e ∷ log) w h = ground arith
find-numbered k (suc n) i (e ∷ log) w h = ground (arith, find-numbered (suc k) n i log w.1)

pub any-numbered :
    (k n i t : ℕ) (log : List LogEntry)
    → IsNumbered k log
    → i ≡ n + k
    → any (λ e. (e.index == i) && (e.term == t)) log
      ≡ map_or false (λ e. e.term == t) (get_elem? log n)
unfolding any
any-numbered k n i t [] w h = refl
any-numbered k zero i t (e ∷ log) w h = ground (arith, any_before (suc k) i t log w.1)
any-numbered k (suc n) i t (e ∷ log) w h = ground (arith, any-numbered (suc k) n i t log w.1)

pub last-numbered :
    (d k : ℕ) (e : LogEntry) (log : List LogEntry)
    → IsNumbered k (e ∷ log)
    → map_or d (λ e. e.index) (last (e ∷ log)) ≡ k + length log
last-numbered d k e [] w = omega arith
last-numbered d k e (f ∷ log) w = omega (arith, last-numbered d (suc k) f log w.1)

-- In a log that starts with index 1 the last index is the number of entries.
pub last-index-length :
    (log : List LogEntry) → IsNumbered 1 log → map_or 0 (λ e. e.index) (last log) ≡ length log
last-index-length [] w = refl
last-index-length (e ∷ log) w = omega (arith, last-numbered 0 1 e log w)

pub filter-numbered :
    (k n i : ℕ) (log : List LogEntry)
    → IsNumbered k log
    → i ≡ n + k
    → filter (λ e. leb i e.index) log ≡ drop n log
unfolding filter
filter-numbered k zero i log w h = filter_all k i log w (omega arith)
filter-numbered k (suc n) i [] w h = refl
filter-numbered k (suc n) i (e ∷ log) w h = ground (arith, filter-numbered (suc k) n i log w.1)

pub IsNumbered-append :
    (k n : ℕ) (xs ys : List LogEntry)
    → IsNumbered k xs
    → n ≡ length xs + k
    → IsNumbered n ys
    → IsNumbered k (xs ++ ys)
IsNumbered-append k n [] ys w h v = let e : n ≡ k = omega arith in rw (← e) v
IsNumbered-append k n (x ∷ xs) ys w h v =
    (w.0, IsNumbered-append (suc k) n xs ys w.1 (omega arith) v)

pub IsNumbered-take : (k n : ℕ) (log : List LogEntry) → IsNumbered k log → IsNumbered k (take n log)
IsNumbered-take k zero log w = tt
IsNumbered-take k (suc n) [] w = tt
IsNumbered-take k (suc n) (e ∷ log) w = (w.0, IsNumbered-take (suc k) n log w.1)

pub IsNumbered-drop :
    (k n i : ℕ) (log : List LogEntry) → IsNumbered k log → i ≡ n + k → IsNumbered i (drop n log)
IsNumbered-drop k zero i log w h = let e : i ≡ k = omega arith in rw e w
IsNumbered-drop k (suc n) i [] w h = tt
IsNumbered-drop k (suc n) i (e ∷ log) w h = IsNumbered-drop (suc k) n i log w.1 (omega arith)

pub get_elem?-numbered :
    (k i : ℕ) (log : List LogEntry) (e : LogEntry)
    → IsNumbered k log
    → get_elem? log i ≡ some e
    → e.index ≡ k + i
get_elem?-numbered k i [] e w h = cc
get_elem?-numbered k zero (x ∷ log) e w h = ground arith
get_elem?-numbered k (suc i) (x ∷ log) e w h =
    omega (arith, get_elem?-numbered (suc k) i log e w.1 h)

pub numbered_above :
    (j k : ℕ) (log : List LogEntry) → IsNumbered k log → j < k → All (λ e. j < e.index) log
numbered_above j k [] w h = tt
numbered_above j k (e ∷ log) w h = (omega arith, numbered_above j (suc k) log w.1 (omega arith))
