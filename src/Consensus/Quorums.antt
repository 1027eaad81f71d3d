-- ===== src/Consensus/Quorums.antt =====
-- Two quorums of one cluster share a member: `quorum` of raft-core/src/lib.rs, over all its nodes.
use raft_craft.Prelude.{
  suc, ◌+◌, ◌≤◌, ◌<◌, ◌==◌, ==_iff, ◌≡◌, refl, ap, ◌⊎◌, inl, inr, true, false, not, ◌||◌, List, [],
  ◌∷◌, ◌++◌, arith, All, All-append, length, length-append, contains, any, filter, Bool-cases,
  if◌then◌else◌,
}
use raft_craft.Protocol.{NodeId}
use raft_craft.Raft.Supporters.{IsDistinct}
use raft_craft.Consensus.System.{peers_in}

-- The list without the first occurrence.
abbrev erase : NodeId → List NodeId → List NodeId
erase a [] = []
erase a (x ∷ xs) = if x == a then xs else x ∷ erase a xs

length-erase :
    (a : NodeId) (xs : List NodeId) → contains xs a ≡ true → suc (length (erase a xs)) ≡ length xs
unfolding contains any
length-erase a [] h = cc
length-erase a (x ∷ xs) h = ground (arith, length-erase a xs)

contains-erase :
    (a b : NodeId) (xs : List NodeId)
    → (a == b) ≡ false
    → contains xs b ≡ true
    → contains (erase a xs) b ≡ true
unfolding contains any
contains-erase a b [] apart h = h
contains-erase a b (x ∷ xs) apart h = ground (arith, contains-erase a b xs apart)

abbrev pub Within : List NodeId → List NodeId → Type 0
Within xs = All (λ v. contains xs v ≡ true)

Within-erase :
    (a : NodeId) (xs vs : List NodeId)
    → contains vs a ≡ false
    → Within xs vs
    → Within (erase a xs) vs
unfolding contains any
Within-erase a xs [] n h = tt
Within-erase a xs (v ∷ vs) n (h, hs) =
    (contains-erase a v xs (ground arith) h, Within-erase a xs vs (ground arith) hs)

-- Distinct elements of a list are no more than it has.
length-Within : (xs vs : List NodeId) → IsDistinct vs → Within xs vs → length vs ≤ length xs
length-Within xs [] d h = omega arith
length-Within xs (v ∷ vs) (new, d) (h, hs) =
    omega
      (arith, length-erase v xs h, length-Within (erase v xs) vs d (Within-erase v xs vs new hs))

contains-append :
    (xs ys : List NodeId) (a : NodeId) → contains (xs ++ ys) a ≡ (contains xs a || contains ys a)
unfolding contains any
contains-append [] ys a = refl
contains-append (x ∷ xs) ys a = ground (arith, contains-append xs ys a)

-- A member of both lists, or there is none.
shared :
    (vs ws : List NodeId)
    → ((v : NodeId) × (contains vs v ≡ true) × (contains ws v ≡ true))
      ⊎ All (λ v. contains ws v ≡ false) vs
unfolding contains any
shared [] ws = inr tt
shared (v ∷ vs) ws = elim (Bool-cases (contains ws v)) [
  | inl e ↦ inl (v, ground arith, e)
  | inr e ↦ elim (shared vs ws) [
    | inl (x, in_vs, in_ws) ↦ inl (x, ground arith, in_ws)
    | inr none_shared ↦ inr (e, none_shared)
  ]
]

append-IsDistinct :
    (vs ws : List NodeId)
    → IsDistinct vs
    → IsDistinct ws
    → All (λ v. contains ws v ≡ false) vs
    → IsDistinct (vs ++ ws)
append-IsDistinct [] ws d e a = e
append-IsDistinct (v ∷ vs) ws (new, d) e (n, a) =
    (ground (arith, contains-append vs ws v), append-IsDistinct vs ws d e a)

-- Two lists of distinct members that together are longer than the cluster share a member.
pub quorums_meet :
    (members vs ws : List NodeId)
    → IsDistinct vs
    → IsDistinct ws
    → Within members vs
    → Within members ws
    → length members < length vs + length ws
    → (v : NodeId) × (contains vs v ≡ true) × (contains ws v ≡ true)
quorums_meet members vs ws d e v w more = elim (shared vs ws) [
  | inl x ↦ x
  | inr apart ↦ absurd (
      omega (
        arith,
        length-append vs ws,
        length-Within members (vs ++ ws) (append-IsDistinct vs ws d e apart)
            (All-append (λ x. contains members x ≡ true) vs ws v w),
      ))
]

filter_absent :
    (i : NodeId) (xs : List NodeId) → contains xs i ≡ false → filter (λ p. not (p == i)) xs ≡ xs
unfolding contains any filter
filter_absent i [] h = refl
filter_absent i (x ∷ xs) h = ground (arith, filter_absent i xs)

-- A member has all the others as peers.
pub length-peers_in :
    (members : List NodeId) (i : NodeId)
    → IsDistinct members
    → contains members i ≡ true
    → suc (length (peers_in members i)) ≡ length members
unfolding contains any filter
length-peers_in [] i d h = cc
length-peers_in (x ∷ members) i (new, d) h = elim (Bool-cases (x == i)) [
  | inl e ↦
      let absent : contains members i ≡ false = rw ((==_iff x i).0 e) at new in
      rw e (ap (λ l. suc (length l)) (filter_absent i members absent))
  | inr e ↦ rw e (ap suc (length-peers_in members i d (ground arith)))
]

contains-filter :
    (i v : NodeId) (xs : List NodeId)
    → contains (filter (λ p. not (p == i)) xs) v ≡ true
    → contains xs v ≡ true
unfolding contains any filter
contains-filter i v [] h = h
contains-filter i v (x ∷ xs) h = ground (arith, contains-filter i v xs)

-- The node and its peers are members.
pub contains-peers_in :
    (members : List NodeId) (i v : NodeId)
    → contains members i ≡ true
    → contains (i ∷ peers_in members i) v ≡ true
    → contains members v ≡ true
unfolding contains any
contains-peers_in members i v here h = elim (Bool-cases (i == v)) [
  | inl e ↦ rw (← (==_iff i v).0 e) here
  | inr e ↦ contains-filter i v members (rw e at h)
]
