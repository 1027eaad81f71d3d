-- ===== src/Raft/Log/Slices.antt =====
-- Parts of a log: lengths and positions under take, drop and append.
use raft_craft.Prelude.{
  ℕ, zero, suc, ◌+◌, ◌-◌, ◌≤◌, ◌≡◌, refl, ap, List, [], ◌∷◌, ◌++◌, arith, length, get_elem?, take,
  drop,
}
use raft_craft.Protocol.{LogEntry}

pub get_elem?-append :
    (xs ys : List LogEntry) (p n : ℕ)
    → length xs ≡ p
    → get_elem? (xs ++ ys) (p + n) ≡ get_elem? ys n
get_elem?-append [] ys p n h = let e : p + n ≡ n = omega arith in rw e
get_elem?-append (x ∷ xs) ys zero n h = absurd (omega arith)
get_elem?-append (x ∷ xs) ys (suc p) n h =
    let e : suc p + n ≡ suc (p + n) = omega arith in rw e (get_elem?-append xs ys p n (omega arith))

pub length-drop : (n : ℕ) (xs : List LogEntry) → length (drop n xs) ≡ length xs - n
length-drop zero xs = omega arith
length-drop (suc n) [] = omega arith
length-drop (suc n) (x ∷ xs) = omega (arith, length-drop n xs)

pub length-take : (n : ℕ) (xs : List LogEntry) → n ≤ length xs → length (take n xs) ≡ n
length-take zero xs h = refl
length-take (suc n) [] h = absurd (omega arith)
length-take (suc n) (x ∷ xs) h = ap suc (length-take n xs (omega arith))

pub take-append : (n : ℕ) (xs ys : List LogEntry) → length xs ≡ n → take n (xs ++ ys) ≡ xs
take-append zero [] ys h = refl
take-append zero (x ∷ xs) ys h = absurd (omega arith)
take-append (suc n) [] ys h = absurd (omega arith)
take-append (suc n) (x ∷ xs) ys h = ap (◌∷◌ x) (take-append n xs ys (omega arith))

pub drop-append : (n : ℕ) (xs ys : List LogEntry) → length xs ≡ n → drop n (xs ++ ys) ≡ ys
drop-append zero [] ys h = refl
drop-append zero (x ∷ xs) ys h = absurd (omega arith)
drop-append (suc n) [] ys h = absurd (omega arith)
drop-append (suc n) (x ∷ xs) ys h = drop-append n xs ys (omega arith)

-- Two lists agree up to `c` if they do up to `p` and, behind `p`, up to `c - p`.
pub take_by_parts :
    (p c : ℕ) (xs ys : List LogEntry)
    → take p xs ≡ take p ys
    → take (c - p) (drop p xs) ≡ take (c - p) (drop p ys)
    → take c xs ≡ take c ys
take_by_parts zero c xs ys a b = let e : c - 0 ≡ c = omega arith in rw e at b
take_by_parts (suc p) zero xs ys a b = refl
take_by_parts (suc p) (suc c) [] [] a b = refl
take_by_parts (suc p) (suc c) [] (y ∷ ys) a b = cc
take_by_parts (suc p) (suc c) (x ∷ xs) [] a b = cc
take_by_parts (suc p) (suc c) (x ∷ xs) (y ∷ ys) a b =
    let e : suc c - suc p ≡ c - p = omega arith in
    let ih = take_by_parts p c xs ys (cc) (rw e at b) in cc
