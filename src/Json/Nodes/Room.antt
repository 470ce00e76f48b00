-- ===== src/Json/Nodes/Room.antt =====
-- The room for the nodes of a document.
use vely.Base.{ℕ, zero, suc, ◌+◌, ◌*◌, ◌≤◌, ◌<◌, ◌≡◌, refl, some, arith, lt→ltb}
use vely.Json.Nodes.{NodeRoom, add_room, write_node, write_nodes, no_room}

-- The nodes are inside of the room, which is not much more than twice of them.
record IsRoomy (r : NodeRoom) : Type 0 where
  fits : r.node_c ≤ r.node_tot
  grows : 1 ≤ r.incby
  doubles : 2 * r.incby ≤ r.node_tot + 32
  bounded : r.node_tot ≤ 2 * r.node_c + 32
  begun : 1 ≤ r.node_tot

module _ (r : NodeRoom) (h : IsRoomy r) where
  add_room-fits : (add_room r).node_c < (add_room r).node_tot
  unfolding add_room
  add_room-fits = ground (arith, h.fits, h.grows, h.begun)

  add_room-doubles :
      (1 ≤ (add_room r).incby) × (2 * (add_room r).incby ≤ (add_room r).node_tot + 32)
  unfolding add_room
  add_room-doubles = (ground (arith, h.grows, h.begun), ground (arith, h.grows, h.begun, h.doubles))

  add_room-bounded :
      ((add_room r).node_c ≡ r.node_c) × ((add_room r).node_tot ≤ 2 * (add_room r).node_c + 32)
  unfolding add_room
  add_room-bounded = (ground arith, ground (arith, h.grows, h.begun, h.doubles, h.bounded, h.fits))

write_node-IsRoomy :
    (r : NodeRoom)
    → IsRoomy r
    → (s : NodeRoom) × (write_node r ≡ some s) × IsRoomy s × (s.node_c ≡ r.node_c + 1)
unfolding write_node
write_node-IsRoomy r h =
    let t = add_room r in
    let (c, most) = add_room-bounded r h in
    let (grows, doubles) = add_room-doubles r h in
    let inside = add_room-fits r h in
    (
      record t { node_c = t.node_c + 1 },
      rw (lt→ltb t.node_c t.node_tot inside),
      record {
        fits = omega arith;
        grows = grows;
        doubles = doubles;
        bounded = omega arith;
        begun = omega arith;
      },
      omega arith,
    )

write_nodes-IsRoomy :
    (n : ℕ) (r : NodeRoom)
    → IsRoomy r
    → (s : NodeRoom) × (write_nodes n r ≡ some s) × IsRoomy s × (s.node_c ≡ r.node_c + n)
unfolding write_nodes
write_nodes-IsRoomy zero r h = (r, refl, h, omega arith)
write_nodes-IsRoomy (suc n) r h =
    let (s, e, i, c) = write_node-IsRoomy r h in
    let (t, f, j, d) = write_nodes-IsRoomy n s i in (t, rw (write_nodes, e) f, j, omega arith)

-- However many nodes a document has, each is written inside of the room that is allocated for them,
-- and there is room for no more than twice as many and 32.
pub write_nodes_lem :
    (n old : ℕ)
    → (r : NodeRoom) × (write_nodes n (add_room (no_room old)) ≡ some r)
      × (r.node_c ≡ n)
      × (n ≤ r.node_tot)
      × (r.node_tot ≤ 2 * n + 32)
unfolding add_room
write_nodes_lem n old =
    let begin : IsRoomy (add_room (no_room old)) = record {
      fits = omega arith;
      grows = omega arith;
      doubles = omega arith;
      bounded = omega arith;
      begun = omega arith;
    } in
    let (r, e, h, c) = write_nodes-IsRoomy n (add_room (no_room old)) begin in
    (r, e, omega (arith, c), omega (arith, h.fits), omega (arith, h.bounded))
