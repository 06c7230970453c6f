-- ===== src/Main/Exits.antt =====
-- main.c: how the daemon ends.
use vlan_tagger.Prelude.{ℕ, zero, suc, ◌≡◌, Bool, false, not, ℤ, pos, negsuc, if◌then◌else◌}
use vlan_tagger.Config.Load.{fault, tag_rules_load}
use vlan_tagger.Queue.{Queue}
use vlan_tagger.Node.{Node}
use vlan_tagger.Main.{World, Exit, exit_success, exit_failure, bad_free, waits, bad_line}

-- How the daemon ends without an exit: where it waits some thread does not end, and where it leaves
-- a line's buffer `tag_rules_load` did.
pub data Ends (world : World) : Exit → Type 0 where
  by_free : Ends world bad_free
  by_waiting : (n : ℕ) → world.returns n ≡ false → Ends world waits
  by_line : tag_rules_load world.inet_aton world.config ≡ fault → Ends world bad_line

-- `main` around its child.
abbrev around : Bool → ℤ → Bool → Exit → Exit
around right fork setsid child = if not right then exit_failure else elim fork [
  | negsuc n ↦ exit_failure
  | pos (suc pid) ↦ exit_success
  | pos zero ↦ if not setsid then exit_failure else child
]
