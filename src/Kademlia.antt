-- ===== src/Kademlia.antt =====
-- packages/kademlia: the peers of src/types.ts.
pub mod Bucket
pub mod Xor
use simple_p2p_blockchain.Common.{ℕ, List, Option}

-- `Contact` of types.ts. A clock that the peer did not send is undefined.
pub record Contact : Type 0 where
  pub id : List ℕ
  pub address : Option (List ℕ)
  pub udp_port : Option ℕ
  pub tcp_port : Option ℕ
  pub vector_clock : Option ℕ
