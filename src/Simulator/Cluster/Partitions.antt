-- ===== src/Simulator/Cluster/Partitions.antt =====
-- raft-simulator/src/network.rs and cluster.rs: which links the partitions cut, link by link.
use raft_craft.Prelude.{
  ◌==◌, ◌≡◌, refl, sym, ap, ◌∙◌, ◌↔◌, inl, inr, Bool, true, not, ◌&&◌, ◌||◌, List, [], ◌∷◌, arith,
  any, filter, contains, Bool-cases, if◌then◌else◌,
}
use raft_craft.Protocol.{NodeId}
use raft_craft.Simulator.Network.{
  Float, Network, same_link, has_link, add_link, remove_link, partition, heal,
}
use raft_craft.Simulator.Cluster.{
  Tasks, Cluster, isolate, unisolate, isolate_links, unisolate_links,
}

same_link_iff : (l k : NodeId × NodeId) → (same_link l k ≡ true) ↔ ((l.0 ≡ k.0) × (l.1 ≡ k.1))
same_link_iff (a, b) (c, d) = ground arith

has_link_moved :
    (l k : NodeId × NodeId) (links : List (NodeId × NodeId))
    → same_link l k ≡ true
    → has_link links k ≡ has_link links l
has_link_moved (a, b) (c, d) links h =
    let (e, f) = (same_link_iff (a, b) (c, d)).0 h in rw (e, f) refl

has_link-add_link :
    (l k : NodeId × NodeId) (links : List (NodeId × NodeId))
    → has_link (add_link l links) k ≡ (same_link k l || has_link links k)
unfolding any
has_link-add_link (a, b) (c, d) links = elim (Bool-cases (has_link links (a, b))) [
  | inl old ↦ rw old (elim (Bool-cases (same_link (c, d) (a, b))) [
    | inl e ↦ rw e (sym (has_link_moved (c, d) (a, b) links e) ∙ old)
    | inr e ↦ rw e refl
  ])
  | inr new ↦ rw new refl
]

has_link-remove_link :
    (l k : NodeId × NodeId) (links : List (NodeId × NodeId))
    → has_link (remove_link l links) k ≡ (not (same_link l k) && has_link links k)
unfolding filter any
has_link-remove_link (a, b) (c, d) [] = ground arith
has_link-remove_link (a, b) (c, d) ((e, f) ∷ links) =
    ground (arith, has_link-remove_link (a, b) (c, d) links)

-- The links that isolating a node is about: those between it and another of the given nodes.
abbrev pub touches : NodeId → List NodeId → NodeId × NodeId → Bool
touches node ids (x, y) =
    ((x == node) && not (y == node) && contains ids y)
    || ((y == node) && not (x == node) && contains ids x)

module _ (F : Float) (Sender : Type 0) where
  partition_lem :
      (n : Network F Sender) (a b : NodeId) (k : NodeId × NodeId)
      → has_link (partition F n a b).partitions k
        ≡ (has_link n.partitions k || same_link k (a, b) || same_link k (b, a))
  unfolding partition
  partition_lem n a b k =
      has_link-add_link (b, a) k (add_link (a, b) n.partitions)
      ∙ ap (λ x. same_link k (b, a) || x) (has_link-add_link (a, b) k n.partitions)
      ∙ ground arith

  heal_lem :
      (n : Network F Sender) (a b : NodeId) (k : NodeId × NodeId)
      → has_link (heal F n a b).partitions k
        ≡ (has_link n.partitions k && not (same_link (a, b) k) && not (same_link (b, a) k))
  unfolding heal
  heal_lem n a b k =
      has_link-remove_link (b, a) k (remove_link (a, b) n.partitions)
      ∙ ap (λ x. not (same_link (b, a) k) && x) (has_link-remove_link (a, b) k n.partitions)
      ∙ ground arith

module _ (F : Float) (T : Tasks) (node : NodeId) where
  pub isolate_links_step :
      (n : Network F T.IncomingSender) (other : NodeId) (ids : List NodeId)
      → isolate_links F T n node (other ∷ ids)
        ≡ isolate_links F T (if not (other == node) then partition F n node other else n) node ids
  unfolding isolate_links
  isolate_links_step n other ids = refl

  pub unisolate_links_step :
      (n : Network F T.IncomingSender) (other : NodeId) (ids : List NodeId)
      → unisolate_links F T n node (other ∷ ids)
        ≡ unisolate_links F T (if not (other == node) then heal F n node other else n) node ids
  unfolding unisolate_links
  unisolate_links_step n other ids = refl

  isolate_links_lem :
      (n : Network F T.IncomingSender) (ids : List NodeId) (x y : NodeId)
      → has_link (isolate_links F T n node ids).partitions (x, y)
        ≡ (has_link n.partitions (x, y) || touches node ids (x, y))
  unfolding contains any
  isolate_links_lem n [] x y = unfold isolate_links in ground arith
  isolate_links_lem n (other ∷ ids) x y = elim (Bool-cases (other == node)) [
    | inl self ↦ rw (isolate_links_step, self) (isolate_links_lem n ids x y ∙ ground arith)
    | inr e ↦
        rw (isolate_links_step, e)
          (isolate_links_lem (partition F n node other) ids x y
            ∙ ap (λ b. b || touches node ids (x, y))
                (partition_lem F T.IncomingSender n node other (x, y))
            ∙ ground arith)
  ]

  unisolate_links_lem :
      (n : Network F T.IncomingSender) (ids : List NodeId) (x y : NodeId)
      → has_link (unisolate_links F T n node ids).partitions (x, y)
        ≡ (has_link n.partitions (x, y) && not (touches node ids (x, y)))
  unfolding contains any
  unisolate_links_lem n [] x y = unfold unisolate_links in ground arith
  unisolate_links_lem n (other ∷ ids) x y = elim (Bool-cases (other == node)) [
    | inl self ↦ rw (unisolate_links_step, self) (unisolate_links_lem n ids x y ∙ ground arith)
    | inr e ↦
        rw (unisolate_links_step, e)
          (unisolate_links_lem (heal F n node other) ids x y
            ∙ ap (λ b. b && not (touches node ids (x, y)))
                (heal_lem F T.IncomingSender n node other (x, y))
            ∙ ground arith)
  ]

module _ (F : Float) (T : Tasks) (c : Cluster F T) (node : NodeId) where
  -- Isolating a node cuts exactly its links to the other nodes of the cluster, in both directions,
  -- and leaves every other link as it was.
  pub isolate-cuts :
      (x y : NodeId)
      → has_link (isolate F T c node).network.partitions (x, y)
        ≡ (has_link c.network.partitions (x, y) || touches node c.node_ids (x, y))
  unfolding isolate
  isolate-cuts x y = isolate_links_lem F T node c.network c.node_ids x y

  -- Ending the isolation of a node restores exactly those links, also the ones to nodes that are
  -- still isolated themselves.
  pub unisolate-restores :
      (x y : NodeId)
      → has_link (unisolate F T c node).network.partitions (x, y)
        ≡ (has_link c.network.partitions (x, y) && not (touches node c.node_ids (x, y)))
  unfolding unisolate
  unisolate-restores x y = unisolate_links_lem F T node c.network c.node_ids x y
