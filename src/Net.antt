-- ===== src/Net.antt =====
-- arpa/inet.h as the program uses it, on a host that stores numbers with the low byte first:
-- `ntohl` and `ntohs` (the same functions as `htonl` and `htons`), and 2 and 4 bytes read as a number.
use vlan_tagger.Prelude.{ℕ, ◌+◌, ◌*◌, ◌/◌, ◌%◌, ◌^◌, ◌<◌, ◌≡◌, arith}

-- `memcpy` of 2 and of 4 bytes into a `uint16_t` and a `uint32_t`.
abbrev pub load16 : ℕ → ℕ → ℕ
load16 a b = a + b * 256

abbrev pub load32 : ℕ → ℕ → ℕ → ℕ → ℕ
load32 a b c d = a + b * 256 + c * 2 ^ 16 + d * 2 ^ 24

-- The bytes of a number, in the order of the memory.
abbrev pub byte : ℕ → ℕ → ℕ
byte i x = x / 256 ^ i % 256

unfoldable pub ntohs : ℕ → ℕ
ntohs x = byte 0 x * 256 + byte 1 x

unfoldable pub ntohl : ℕ → ℕ
ntohl x = byte 0 x * 2 ^ 24 + byte 1 x * 2 ^ 16 + byte 2 x * 256 + byte 3 x

pub ntohl-lt : (x : ℕ) → ntohl x < 2 ^ 32
unfolding ntohl
ntohl-lt x = omega arith

pub ntohl-ntohl : (x : ℕ) → x < 2 ^ 32 → ntohl (ntohl x) ≡ x
unfolding ntohl
ntohl-ntohl x h = omega arith

-- Bytes in network order read as the number that they spell.
pub ntohl-load32 :
    (a b c d : ℕ)
    → a < 256
    → b < 256
    → c < 256
    → d < 256
    → ntohl (load32 a b c d) ≡ a * 2 ^ 24 + b * 2 ^ 16 + c * 256 + d
unfolding ntohl
ntohl-load32 a b c d ha hb hc hd = omega arith

pub ntohs-load16 : (a b : ℕ) → a < 256 → b < 256 → ntohs (load16 a b) ≡ a * 256 + b
unfolding ntohs
ntohs-load16 a b ha hb = omega arith
