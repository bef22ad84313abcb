-- ===== src/Node/Api/Requests.antt =====
-- What a request does to the node and to its peers.
use better_call_chain.Prelude.{
  ◌≡◌, refl, sym, subst, ◌⊎◌, inl, inr, true, false, [], Option, some, ok, Result-cases,
  Option-cases, Bool-cases,
}
use better_call_chain.Core.Types.{Bytes, Transaction}
use better_call_chain.Core.Crypto.{Crypto}
use better_call_chain.Node.IndexMap.{IndexMap}
use better_call_chain.Node.Mempool.{Mempool, AddedToPool, add}
use better_call_chain.Node.Mempool.Invariant.{IsConsistent}
use better_call_chain.Node.Mempool.Admission.{add-IsConsistent}
use better_call_chain.Node.State.{new_tx, Stores, NodeState, broadcast_all}
use better_call_chain.Node.Api.{
  Route, Served, Response, err_response, tip_route, tx_route, peers_route, options_route,
  unknown_route, balance_route, utxos_route, reads, submit, post_tx, serve, route_of, route,
}

module _ (c : Crypto) (st : Stores) (im : IndexMap) (from_slice : Bytes → Option Transaction)
    (n : NodeState st im) (body : Bytes) where
  -- The node is as before and nothing is sent, or the body is a transaction that the pool took: the
  -- node has the new pool, and the transaction goes to all peers if the pool had not known it.
  unfoldable pub IsServed : Served c st im → Type 0
  IsServed s =
      ((s.node ≡ n) × (s.sent ≡ []))
      ⊎ ((tx : Transaction) × (pool : Mempool im) × (added : AddedToPool) × (from_slice body
            ≡ some tx)
          × (add c im (st.get_output n.stores) tx n.mempool ≡ ok (pool, added))
          × (s.node ≡ record n { mempool = pool })
          × (((added.newly_added ≡ true) × (s.sent ≡ broadcast_all (new_tx tx) n.peer_set))
              ⊎ ((added.newly_added ≡ false) × (s.sent ≡ []))))

  unchanged : (answer : Response) → IsServed (reads c st im n answer)
  unfolding reads IsServed
  unchanged answer = inl (refl, refl)

  IsServed-IsConsistent :
      (s : Served c st im)
      → IsConsistent c im n.mempool
      → IsServed s
      → IsConsistent c im s.node.mempool
  unfolding IsServed
  IsServed-IsConsistent s w (inl h) =
      subst (λ (m : NodeState st im). IsConsistent c im m.mempool) (sym h.0) w
  IsServed-IsConsistent s w (inr (tx, pool, added, f, q, same, _)) =
      subst (λ (m : NodeState st im). IsConsistent c im m.mempool) (sym same)
        (add-IsConsistent c im (st.get_output n.stores) tx n.mempool pool added w q).0

  submit-IsServed : (tx : Transaction) → from_slice body ≡ some tx → IsServed (submit c st im n tx)
  unfolding submit reads IsServed
  submit-IsServed tx f = elim (Result-cases (add c im (st.get_output n.stores) tx n.mempool)) [
    | inr (e, q) ↦ rw (q, submit) (inl (refl, refl))
    | inl ((pool, added), q) ↦
        rw (q, submit)
          (elim (Bool-cases added.newly_added) [
            | inl b ↦ inr (tx, pool, added, f, q, refl, inl (b, rw b refl))
            | inr b ↦ inr (tx, pool, added, f, q, refl, inr (b, rw b refl))
          ])
  ]

  post_tx-IsServed : IsServed (post_tx c st im from_slice n body)
  unfolding post_tx
  post_tx-IsServed = elim (Option-cases (from_slice body)) [
    | inl f ↦ rw (f, post_tx) (unchanged (err_response 400))
    | inr (tx, f) ↦ rw (f, post_tx) (submit-IsServed tx f)
  ]

  serve-IsServed : (r : Route) → IsServed (serve c st im from_slice r body n)
  unfolding serve
  serve-IsServed tip_route = unchanged _
  serve-IsServed (balance_route a) = unchanged _
  serve-IsServed (utxos_route a) = unchanged _
  serve-IsServed peers_route = unchanged _
  serve-IsServed options_route = unchanged _
  serve-IsServed unknown_route = unchanged _
  serve-IsServed tx_route = post_tx-IsServed

  -- A request leaves the node as it was and sends nothing, or its body is a transaction that the
  -- pool accepts, which is sent to every peer if it is new to the pool. A pool that was consistent
  -- is consistent afterwards.
  pub route-IsServed :
      (method path : Bytes)
      → IsConsistent c im n.mempool
      → let s = route c st im from_slice method path body n in
        IsServed s × IsConsistent c im s.node.mempool
  unfolding route
  route-IsServed method path w =
      let s = serve c st im from_slice (route_of method path) body n in
      let h = serve-IsServed (route_of method path) in (h, IsServed-IsConsistent s w h)
