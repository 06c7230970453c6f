-- ===== src/Queue/Takes.antt =====
-- queue/queue.c: what leaves the ring, and what is read of it without leaving.
use vlan_tagger.Prelude.{
  ℕ, suc, ◌+◌, ◌-◌, ◌%◌, ◌<◌, ◌≡◌, refl, ◌∙◌, List, ◌∷◌, none, arith, Bytes, get_elem?, length-set,
  get_or-set_self, get_or-set_ne, get_elem?-ge, ℕ_discrete,
}
use vlan_tagger.Queue.Holds.{Cell, Cell-eq, Holds, next-mod}
use vlan_tagger.Queue.{Queue, q_size, clear_front}

module _ {q : Queue} {p : Bytes} {ps : List Bytes} (v : Holds q (p ∷ ps)) where
  -- Round the ring, every cell but the old front one is as far from the new front as it was, less one.
  kept-Cell :
      (k : ℕ) → suc k < q_size → Cell (clear_front q) ((q.front + suc k) % q_size) (get_elem? ps k)
  unfolding clear_front
  kept-Cell k lt =
      Cell-eq q (clear_front q) ((q.front + suc k) % q_size) (get_elem? ps k)
        (get_or-set_ne q.sizes q.front _ 0 0 (omega (arith, v.front_in))) refl (v.cells (suc k) lt)

  cleared-Cell : Cell (clear_front q) q.front none
  unfolding clear_front
  cleared-Cell = get_or-set_self q.sizes q.front 0 0 (omega (arith, v.front_in, v.all_sizes))

  clear_front-cells :
      (k : ℕ)
      → k < q_size
      → Cell (clear_front q) (((q.front + 1) % q_size + k) % q_size) (get_elem? ps k)
  clear_front-cells k lt = elim (ℕ_discrete k (q_size - 1)) [
    | yes e ↦
        let round : ((q.front + 1) % q_size + k) % q_size ≡ q.front = omega (arith, v.front_in) in
        rw (round, get_elem?-ge ps k (omega (arith, v.fits))) cleared-Cell
    | no ne ↦
        let on : ((q.front + 1) % q_size + k) % q_size ≡ (q.front + suc k) % q_size = omega arith in
        rw on (kept-Cell k (omega arith))
  ]

  -- Clearing the front cell leaves the later packets.
  pub clear_front-Holds : Holds (clear_front q) ps
  clear_front-Holds =
      unfold clear_front in
      record {
        front_in = rw (next-mod q.front v.front_in) (omega arith);
        rear_at = rw (next-mod q.front v.front_in) (omega (arith, v.rear_at));
        fits = omega (arith, v.fits);
        all_sizes = length-set q.sizes q.front 0 ∙ v.all_sizes;
        all_slots = v.all_slots;
        cells = rw (next-mod q.front v.front_in) clear_front-cells;
      }
