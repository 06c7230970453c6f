-- ===== src/Queue/Fifo.antt =====
-- What queue/README.MD promises of the queue: a first-in first-out list of at most `q_size` packets.
-- It knows nothing of cells, indices or a condition variable.
use vlan_tagger.Prelude.{
  ℕ, List, [], ◌∷◌, ◌++◌, ltb, ◌==◌, if◌then◌else◌, ℤ, pos, minus_one, Bytes, length, take, drop,
}
use vlan_tagger.Queue.{q_size, max_pkg_size}

abbrev pub Fifo : Type 0
Fifo = List Bytes

-- A packet is refused with -1 if it is too long; it is dropped with 0 if it is empty or if there is
-- no room.
unfoldable pub push : Fifo → Bytes → ℕ → ℤ × Fifo
push ps buf size =
    if ltb max_pkg_size size
    then (minus_one, ps)
    else if size == 0
    then (pos 0, ps)
    else if length ps == q_size
    then (pos 0, ps)
    else (pos size, ps ++ take size buf ∷ [])

unfoldable pub remove_front : Fifo → Fifo
remove_front [] = []
remove_front (p ∷ ps) = ps

-- The packet over the start of the caller's buffer.
abbrev pub over : Bytes → Bytes → Bytes
over p buff = p ++ drop (length p) buff

unfoldable pub front : Fifo → Bytes → ℤ × Bytes
front [] buff = (minus_one, buff)
front (p ∷ ps) buff = (pos (length p), over p buff)

abbrev pub last : Bytes → Fifo → Bytes
last p [] = p
last p (r ∷ ps) = last r ps

unfoldable pub back : Fifo → Bytes → ℤ × Bytes
back [] buff = (minus_one, buff)
back (p ∷ ps) buff = (pos (length (last p ps)), over (last p ps) buff)
