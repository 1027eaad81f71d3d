-- ===== src/Consensus/Histories.antt =====
-- The logs that leaders have had, and what it means that a log consists of them.
use mathlib.Core.Option.{some-injective}
use native.Mathlib.Decide.{dec_lt}
use raft_craft.Raft.Log.Slices.{get_elem?-append}
use mathlib.Core.List.{append_assoc, append-nil}
use raft_craft.Prelude.{
  ℕ, zero, suc, ◌+◌, ◌/◌, ◌≤◌, ◌<◌, ◌==◌, ◌≡◌, refl, sym, ap, ◌∙◌, ◌⊎◌, inl, inr, true, List, [],
  ◌∷◌, ◌++◌, some, arith, length, get_elem?, take, get_elem?-lt, length-append, Any, All, contains,
  any, Bool-cases, ==_iff,
}
use raft_craft.Protocol.{NodeId, Term, LogEntry}
use raft_craft.Raft.State.{is_leader}
use raft_craft.Raft.Supporters.{IsDistinct, Supports}
use raft_craft.Raft.Replication.Matching.{Matching}
use raft_craft.Consensus.System.{Reign, System, Voted}
use raft_craft.Consensus.Ballots.{Archives}
use raft_craft.Consensus.Quorums.{Within, quorums_meet}
use raft_craft.Consensus.Election.{Invariant, quorum_of_member, voters-Within}

abbrev pub IsPrefix : List LogEntry → List LogEntry → Type 0
IsPrefix xs ys = (zs : List LogEntry) × (ys ≡ xs ++ zs)

pub IsPrefix-refl : (xs : List LogEntry) → IsPrefix xs xs
IsPrefix-refl xs = ([], sym (append-nil xs))

pub IsPrefix-append : (xs ys zs : List LogEntry) → IsPrefix xs ys → IsPrefix xs (ys ++ zs)
IsPrefix-append xs ys zs (rest, e) = (rest ++ zs, ap (λ l. l ++ zs) e ∙ append_assoc xs rest zs)

pub take-prefix : (n : ℕ) (xs zs : List LogEntry) → n ≤ length xs → take n (xs ++ zs) ≡ take n xs
take-prefix zero xs zs h = refl
take-prefix (suc n) [] zs h = absurd (omega arith)
take-prefix (suc n) (x ∷ xs) zs h = ap (◌∷◌ x) (take-prefix n xs zs (omega arith))

abbrev pub Held : List Reign → Reign → Type 0
Held hs h = Any (λ x. x ≡ h) hs

-- Every entry, with all before it, is from a log that a leader of its term has had.
abbrev pub Records : List Reign → List LogEntry → Type 0
Records hs xs =
    (n : ℕ) (e : LogEntry)
    → get_elem? xs n ≡ some e
    → (h : Reign) × Held hs h
      × (h.term ≡ e.term)
      × (suc n ≤ length h.log)
      × (take (suc n) h.log ≡ take (suc n) xs)

-- Of two logs in one term one is a part of the other.
abbrev pub IsOrdered : List Reign → Type 0
IsOrdered hs =
    (h k : Reign)
    → Held hs h
    → Held hs k
    → h.term ≡ k.term
    → IsPrefix h.log k.log ⊎ IsPrefix k.log h.log

pub Records-Matching :
    (hs : List Reign) (xs ys : List LogEntry)
    → IsOrdered hs
    → Records hs xs
    → Records hs ys
    → Matching xs ys
Records-Matching hs xs ys o r q n e f x y t =
    let (h, held, term, long, same) = r n e x in
    let (k, held', term', long', same') = q n f y in
    elim (o h k held held' (term ∙ t ∙ sym term')) [
      | inl (zs, whole) ↦
          sym same ∙ sym (take-prefix (suc n) h.log zs long) ∙ ap (take (suc n)) (sym whole) ∙ same'
      | inr (zs, whole) ↦
          sym same ∙ ap (take (suc n)) whole ∙ take-prefix (suc n) k.log zs long' ∙ same'
    ]

pub Records-mono :
    (hs ks : List Reign) (xs : List LogEntry)
    → ((h : Reign) → Held hs h → Held ks h)
    → Records hs xs
    → Records ks xs
Records-mono hs ks xs more r n e x =
    let (h, held, term, long, same) = r n e x in (h, more h held, term, long, same)

get_elem?-left :
    (xs ys : List LogEntry) (n : ℕ) → n < length xs → get_elem? (xs ++ ys) n ≡ get_elem? xs n
get_elem?-left [] ys n h = elim h [ ]
get_elem?-left (x ∷ xs) ys zero h = refl
get_elem?-left (x ∷ xs) ys (suc n) h = get_elem?-left xs ys n (omega arith)

-- One entry more, of a leader whose log is held.
pub Records-append :
    (hs : List Reign) (h : Reign) (xs : List LogEntry) (e : LogEntry)
    → Records hs xs
    → Held hs h
    → h.term ≡ e.term
    → h.log ≡ xs ++ e ∷ []
    → Records hs (xs ++ e ∷ [])
Records-append hs h xs e r held term whole n f x =
    let size = length-append xs (e ∷ []) in
    let bound = get_elem?-lt (xs ++ e ∷ []) n f x in
    elim (dec_lt n (length xs)) [
      | yes inside ↦
          let (k, held', term', long, same) =
            r n f (sym (get_elem?-left xs (e ∷ []) n inside) ∙ x) in
          (k, held', term', long, same ∙ sym (take-prefix (suc n) xs (e ∷ []) (omega arith)))
      | no outside ↦
          let end : n ≡ length xs + 0 = omega (arith, size, bound, outside) in
          let last =
            sym (get_elem?-append xs (e ∷ []) (length xs) 0 refl)
            ∙ ap (get_elem? (xs ++ e ∷ [])) (sym end)
            ∙ x in
          let equal : e ≡ f = some-injective e f last in
          (
            h,
            held,
            term ∙ ap (λ y. y.term) equal,
            omega (arith, size, bound, ap length whole),
            ap (take (suc n)) whole,
          )
    ]

-- A majority of the members voted for the leader.
pub record IsElected (members : List NodeId) (s : System) (h : Reign) : Type 0 where
  pub voters : List NodeId
  pub distinct : IsDistinct voters
  pub within : Within members voters
  pub cast : All (λ v. Voted s v h.term h.leader) voters
  pub enough : length members / 2 + 1 ≤ length voters

voter_of :
    (s : System) (h : Reign) (vs : List NodeId) (x : NodeId)
    → All (λ v. Voted s v h.term h.leader) vs
    → contains vs x ≡ true
    → Voted s x h.term h.leader
unfolding contains any
voter_of s h [] x c there = cc
voter_of s h (v ∷ vs) x (c, cs) there = elim (Bool-cases (v == x)) [
  | inl e ↦ rw (← (==_iff v x).0 e) c
  | inr e ↦ voter_of s h vs x cs (rw e at there)
]

pub IsElected-unique :
    (members : List NodeId) (s : System) (h k : Reign)
    → Archives s
    → IsElected members s h
    → IsElected members s k
    → h.term ≡ k.term
    → h.leader ≡ k.leader
IsElected-unique members s h k a p q same =
    let (x, in_p, in_q) =
      quorums_meet members p.voters q.voters p.distinct q.distinct p.within q.within
        (omega (arith, p.enough, q.enough)) in
    a.unique x h.term h.leader k.leader (voter_of s h p.voters x p.cast in_p)
      (rw same (voter_of s k q.voters x q.cast in_q))

pub IsElected-mono :
    (members : List NodeId) (s t : System) (h : Reign)
    → ((v : NodeId) (term : Term) (c : NodeId) → Voted s v term c → Voted t v term c)
    → IsElected members s h
    → IsElected members t h
IsElected-mono members s t h more p = record {
  voters = p.voters;
  distinct = p.distinct;
  within = p.within;
  cast = go p.voters p.cast;
  enough = p.enough;
}
  where
    go :
        (vs : List NodeId)
        → All (λ v. Voted s v h.term h.leader) vs
        → All (λ v. Voted t v h.term h.leader) vs
    go [] a = tt
    go (v ∷ vs) (c, a) = (more v h.term h.leader c, go vs a)

supporters-Voted :
    (s : System) (i : NodeId) (vs : List NodeId)
    → (s.nodes i).id ≡ i
    → Supports (Voted s) (s.nodes i) vs
    → All (λ v. Voted s v (s.nodes i).current_term i) vs
supporters-Voted s i [] self h = tt
supporters-Voted s i (v ∷ vs) self ((new, d), ((cast, known), hs)) =
    (rw self at cast, supporters-Voted s i vs self (d, hs))

-- A leader has been elected.
pub leader-IsElected :
    (members : List NodeId) (s : System) (i : NodeId)
    → Invariant members s
    → IsDistinct members
    → contains members i ≡ true
    → is_leader (s.nodes i).role ≡ true
    → IsElected members s
        (record { leader = i; term = (s.nodes i).current_term; log = (s.nodes i).log })
leader-IsElected members s i v d here leads =
    let (vs, support, enough) = (v.backed i).elected leads in
    record {
      voters = vs;
      distinct = support.0;
      within = voters-Within members s i vs v here support;
      cast = supporters-Voted s i vs (v.identity i).0 support;
      enough = omega (arith, quorum_of_member members s i v d here, enough);
    }
