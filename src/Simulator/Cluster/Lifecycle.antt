-- ===== src/Simulator/Cluster/Lifecycle.antt =====
-- cluster.rs: killing and restarting nodes. The network has a channel for exactly the live nodes.
use raft_craft.Prelude.{
  ◌==◌, ==_iff, ==_refl, ◌≡◌, refl, ap, ◌∙◌, sym, inl, inr, true, false, none, List, [], ◌∷◌,
  is_some, map_or, lookup, lookup-put, lookup-remove, Bool-cases, Option-cases,
}
use raft_craft.Protocol.{NodeId, Command, Message}
use raft_craft.Runtime.Node.{NodeConfig}
use raft_craft.Simulator.Clock.{SimulatedClock}
use raft_craft.Simulator.Network.{Float, register, deregister, deliver, node_dead}
use raft_craft.Simulator.Cluster.{
  Tasks, Cluster, start_node, start_in, start_all, new_cluster, is_alive, kill_node, restart_node,
  submit,
}

module _ (F : Float) (T : Tasks) where
  -- A node has a channel in the network if and only if it is alive.
  abbrev pub IsConsistent : Cluster F T → Type 0
  IsConsistent c = (id : NodeId) → is_some (lookup ◌==◌ id c.network.senders) ≡ is_alive F T c id

  start_in-IsConsistent :
      (c : Cluster F T) (id : NodeId) → IsConsistent c → IsConsistent (start_in F T c id)
  unfolding start_in start_node register is_alive
  start_in-IsConsistent c id h j =
      rw (lookup-put ◌==◌ ==_iff id j _ c.network.senders, lookup-put ◌==◌ ==_iff id j _ c.nodes)
        (elim (Bool-cases (id == j)) [ inl e ↦ rw e refl | inr e ↦ rw e (h j) ])

  start_all-IsConsistent :
      (c : Cluster F T) (ids : List NodeId) → IsConsistent c → IsConsistent (start_all F T c ids)
  unfolding start_all
  start_all-IsConsistent c [] h = h
  start_all-IsConsistent c (id ∷ ids) h =
      start_all-IsConsistent (start_in F T c id) ids (start_in-IsConsistent c id h)

  -- In a new cluster exactly the live nodes have a channel.
  pub new_cluster-IsConsistent :
      (ids : List NodeId) (clock : SimulatedClock T.Waker) (config : NodeConfig) (world : T.World)
      → IsConsistent (new_cluster F T ids clock config world)
  unfolding new_cluster lookup is_alive
  new_cluster-IsConsistent ids clock config world = start_all-IsConsistent _ ids (λ id. refl)

  -- Killing a node keeps it so that exactly the live nodes have a channel.
  pub kill_node-IsConsistent :
      (c : Cluster F T) (id : NodeId) → IsConsistent c → IsConsistent (kill_node F T c id)
  unfolding kill_node deregister is_alive
  kill_node-IsConsistent c id h j = elim (Option-cases (lookup ◌==◌ id c.nodes)) [
    | inl e ↦ rw (kill_node, e) (h j)
    | inr (x, e) ↦ elim (Bool-cases x.alive) [
      | inr dead ↦ rw (kill_node, e, dead) (h j)
      | inl alive ↦
          rw
            (
              kill_node,
              e,
              alive,
              lookup-remove ◌==◌ ==_iff id j c.network.senders,
              lookup-put ◌==◌ ==_iff id j _ c.nodes,
            )
            (elim (Bool-cases (id == j)) [ inl same ↦ rw same refl | inr other ↦ rw other (h j) ])
    ]
  ]

  -- Restarting a node keeps it so that exactly the live nodes have a channel.
  pub restart_node-IsConsistent :
      (c : Cluster F T) (id : NodeId) → IsConsistent c → IsConsistent (restart_node F T c id)
  unfolding restart_node
  restart_node-IsConsistent c id h = elim (Bool-cases (is_alive F T c id)) [
    | inl e ↦ rw e h
    | inr e ↦ rw e (start_in-IsConsistent c id h)
  ]

  kill_node-dead : (c : Cluster F T) (id : NodeId) → is_alive F T (kill_node F T c id) id ≡ false
  unfolding kill_node is_alive
  kill_node-dead c id = elim (Option-cases (lookup ◌==◌ id c.nodes)) [
    | inl e ↦ rw (kill_node, e) (ap (map_or false (λ h. h.alive)) e)
    | inr (x, e) ↦ elim (Bool-cases x.alive) [
      | inr dead ↦ rw (kill_node, e, dead) (ap (map_or false (λ h. h.alive)) e ∙ dead)
      | inl alive ↦
          rw (kill_node, e, alive, lookup-put ◌==◌ ==_iff id id _ c.nodes, ==_refl id) refl
    ]
  ]

  -- Where exactly the live nodes have a channel, a killed node is marked as dead, no command can be
  -- submitted to it, and the network delivers it no message from any node.
  pub kill_node-silences :
      (c : Cluster F T) (id from : NodeId) (m : Message) (random : F.Carrier) (cmd : Command)
      → IsConsistent c
      → let c' = kill_node F T c id in
        (is_alive F T c' id ≡ false)
        × ((submit F T c' id cmd).0 ≡ none)
        × (deliver F c'.network from id m random ≡ node_dead)
  unfolding deliver submit is_alive
  kill_node-silences c id from m random cmd h =
      let c' = kill_node F T c id in
      let dead = kill_node-dead c id in
      let gone = kill_node-IsConsistent c id h id ∙ dead in
      (
        dead,
        elim (Option-cases (lookup ◌==◌ id c'.nodes)) [
          | inl e ↦ rw (submit, e) refl
          | inr (x, e) ↦
              let off : x.alive ≡ false =
                sym (ap (map_or false (λ y. y.alive)) e) ∙ (unfold is_alive in dead) in
              rw (submit, e, off) refl
        ],
        elim (Option-cases (lookup ◌==◌ id c'.network.senders)) [
          | inl e ↦ rw (deliver, e) refl
          | inr (tx, e) ↦ let on : true ≡ false = sym (ap is_some e) ∙ gone in cc
        ],
      )
