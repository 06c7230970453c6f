-- ===== src/Tagger/Rules.antt =====
-- nodes/src/tagger_node.c: which tag `tagger_node_get_tag` finds for an address.
use vlan_tagger.Prelude.{
  ℕ, zero, suc, ◌≡◌, refl, subst, ◌∙◌, List, [], ◌∷◌, map, some, arith, pos, get_elem?, All,
  All-get_elem?,
}
use vlan_tagger.Config.{TagRule}
use vlan_tagger.Config.Valid.{In, IsApart, AreApart}
use vlan_tagger.Tagger.{to_host, get_tag}

get_tag-hit :
    (a : ℕ) (r : TagRule) (rs : List TagRule) → In a r → get_tag a (map to_host (r ∷ rs)) ≡ r.tag
unfolding get_tag
get_tag-hit a r rs h = ground arith

get_tag-miss :
    (a : ℕ) (r : TagRule) (rs : List TagRule)
    → (¬ In a r)
    → get_tag a (map to_host (r ∷ rs)) ≡ get_tag a (map to_host rs)
unfolding get_tag
get_tag-miss a r rs h = ground arith

-- Among rules that share no address, the lookup finds the tag of the one rule that holds the address,
-- wherever it stands in the list.
pub get_tag-In :
    (rs : List TagRule) (i a : ℕ) (r : TagRule)
    → AreApart rs
    → get_elem? rs i ≡ some r
    → In a r
    → get_tag a (map to_host rs) ≡ r.tag
get_tag-In [] i a r apart e h = absurd (cc)
get_tag-In (s ∷ rs) zero a r apart e h =
    let same : r ≡ s = cc in rw same (get_tag-hit a s rs (subst (In a) same h))
get_tag-In (s ∷ rs) (suc i) a r apart e h =
    get_tag-miss a s rs (λ k. All-get_elem? (IsApart s) rs i apart.0 e a k h)
    ∙ get_tag-In rs i a r apart.1 e h

-- An address that no rule holds has the tag 0.
pub get_tag-none :
    (rs : List TagRule) (a : ℕ) → All (λ r. ¬ In a r) rs → get_tag a (map to_host rs) ≡ pos 0
get_tag-none [] a h = unfold get_tag in refl
get_tag-none (r ∷ rs) a h = get_tag-miss a r rs h.0 ∙ get_tag-none rs a h.1
