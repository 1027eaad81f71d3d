-- ===== src/Simulator/Network.antt =====
-- raft-simulator/src/network.rs: which messages arrive. The probabilities are `f64`, a parameter;
-- the random number of a call is an argument. A log line (`trace!`) is not modelled.
use raft_craft.Prelude.{
  ℕ, ◌==◌, Bool, ◌&&◌, not, List, [], ◌∷◌, none, some, any, filter, ltb, lookup, remove, put,
  if◌then◌else◌,
}
use raft_craft.Protocol.{NodeId, Message}

-- What the code uses of `f64`: the two bounds, `<`, `clamp`, and for the controls of the
-- simulator the sum, the difference, the smaller and the larger of two, and a number of
-- hundredths.
pub record Float : Type 1 where
  pub Carrier : Type 0
  pub zero : Carrier
  pub one : Carrier
  pub less : Carrier → Carrier → Bool
  pub clamp : Carrier → Carrier → Carrier → Carrier
  pub add : Carrier → Carrier → Carrier
  pub sub : Carrier → Carrier → Carrier
  pub smaller : Carrier → Carrier → Carrier
  pub larger : Carrier → Carrier → Carrier
  pub hundredths : ℕ → Carrier

pub record NetworkConfig (F : Float) : Type 0 where
  pub drop_rate : F.Carrier
  pub latency_ms : ℕ

-- `NetworkInner` without the clock; `Sender` is the sending half of a channel of messages.
pub record Network (F : Float) (Sender : Type 0) : Type 0 where
  pub senders : List (NodeId × Sender)
  pub partitions : List (NodeId × NodeId)
  pub config : NetworkConfig F

-- The end of the pipeline for one message.
pub data Delivery (Sender : Type 0) : Type 0 where
  node_dead partitioned random_drop : Delivery Sender
  delayed : (ms : ℕ) → Sender → NodeId → Message → Delivery Sender
  immediate : Sender → NodeId → Message → Delivery Sender

-- `==` on a pair of nodes, and the operations of the `HashSet` of pairs.
abbrev pub same_link : NodeId × NodeId → NodeId × NodeId → Bool
same_link (a, b) (c, d) = (a == c) && (b == d)

abbrev pub has_link : List (NodeId × NodeId) → NodeId × NodeId → Bool
has_link links l = any (same_link l) links

abbrev pub add_link : NodeId × NodeId → List (NodeId × NodeId) → List (NodeId × NodeId)
add_link l links = if has_link links l then links else l ∷ links

abbrev pub remove_link : NodeId × NodeId → List (NodeId × NodeId) → List (NodeId × NodeId)
remove_link l links = filter (λ k. not (same_link l k)) links

module _ (F : Float) {Sender : Type 0} where
  abbrev pub new_network : Network F Sender
  new_network = record {
    senders = [];
    partitions = [];
    config = record { drop_rate = F.zero; latency_ms = 0 };
  }

  unfoldable pub register : Network F Sender → NodeId → Sender → Network F Sender
  register n node_id tx = record n { senders = put ◌==◌ node_id tx n.senders }

  unfoldable pub deregister : Network F Sender → NodeId → Network F Sender
  deregister n node_id = record n { senders = remove ◌==◌ node_id n.senders }

  unfoldable pub partition : Network F Sender → NodeId → NodeId → Network F Sender
  partition n a b = record n { partitions = add_link (b, a) (add_link (a, b) n.partitions) }

  unfoldable pub heal : Network F Sender → NodeId → NodeId → Network F Sender
  heal n a b = record n { partitions = remove_link (b, a) (remove_link (a, b) n.partitions) }

  unfoldable pub set_drop_rate : Network F Sender → F.Carrier → Network F Sender
  set_drop_rate n rate = record n {
    config = record n.config { drop_rate = F.clamp rate F.zero F.one };
  }

  unfoldable pub set_latency_ms : Network F Sender → ℕ → Network F Sender
  set_latency_ms n ms = record n { config = record n.config { latency_ms = ms } }

  unfoldable pub deliver :
      Network F Sender → (from to : NodeId) → Message → (random : F.Carrier) → Delivery Sender
  deliver n from to msg random = elim (lookup ◌==◌ to n.senders) [
    | none ↦ node_dead
    | some tx ↦
        if has_link n.partitions (from, to)
        then partitioned
        else if F.less F.zero n.config.drop_rate && F.less random n.config.drop_rate
        then random_drop
        else if ltb 0 n.config.latency_ms
        then delayed n.config.latency_ms tx from msg
        else immediate tx from msg
  ]
