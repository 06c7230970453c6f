-- ===== src/Config.antt =====
-- config_parser/config_parser.h and the checks of config_parser/config_parser.c: the rules and
-- `validate_rules`.
pub mod Text
pub mod Load
pub mod Valid
mod Tests
use vlan_tagger.Prelude.{
  ℕ, suc, zero, Bool, true, false, not, ◌||◌, List, [], ◌∷◌, ltb, leb, if◌then◌else◌, ℤ, pos,
  negsuc,
}
use vlan_tagger.Net.{ntohl}

-- `MAX_RULES` and `MAX_VLAN_ID`.
abbrev pub max_rules : ℕ
max_rules = 128

abbrev pub max_vlan_id : ℕ
max_vlan_id = 4095

-- `tag_rule_t`: the two addresses are `s_addr`, in network byte order. A `tag_rules_t` is the list
-- of the first `size` rules.
pub record TagRule : Type 0 where
  pub ip_left : ℕ
  pub ip_right : ℕ
  pub tag : ℤ

-- The error code -n.
abbrev pub minus : ℕ → ℤ
minus zero = pos 0
minus (suc n) = negsuc n

-- The bounds in host byte order.
abbrev pub left : TagRule → ℕ
left r = ntohl r.ip_left

abbrev pub right : TagRule → ℕ
right r = ntohl r.ip_right

-- The three loops of `validate_rules`.
pub check_bounds : List TagRule → ℤ
check_bounds [] = pos 0
check_bounds (r ∷ rs) = if ltb (right r) (left r) then minus 11 else check_bounds rs

pub collide : TagRule → TagRule → Bool
collide r s = not (ltb (right r) (left s) || ltb (right s) (left r))

-- the inner loop
pub check_against : TagRule → List TagRule → ℤ
unfolding collide
check_against r [] = pos 0
check_against r (s ∷ ss) = if collide r s then minus 12 else check_against r ss

-- A check that did not return goes on with the next.
abbrev pub or_else : ℤ → ℤ → ℤ
or_else (pos n) next = next
or_else (negsuc n) next = negsuc n

pub check_collisions : List TagRule → ℤ
unfolding check_against
check_collisions [] = pos 0
check_collisions (r ∷ rs) = or_else (check_against r rs) (check_collisions rs)

-- `tag < MIN_VLAN_ID || tag > MAX_VLAN_ID`
abbrev pub is_bad_tag : ℤ → Bool
is_bad_tag (pos n) = ltb max_vlan_id n
is_bad_tag (negsuc n) = true

pub check_tags : List TagRule → ℤ
check_tags [] = pos 0
check_tags (r ∷ rs) = if is_bad_tag r.tag then minus 13 else check_tags rs

-- `validate_rules`
unfoldable pub validate_rules : List TagRule → ℤ
unfolding check_bounds check_collisions check_tags
validate_rules rs = or_else (check_bounds rs) (or_else (check_collisions rs) (check_tags rs))
