-- ===== src/Frame.antt =====
-- common.h, and the Ethernet frames that the nodes keep in their buffers.
use vlan_tagger.Prelude.{
  ℕ, zero, suc, ◌+◌, ◌≤◌, ◌<◌, ◌≡◌, refl, ◌&&◌, [], ◌∷◌, ◌++◌, Option, none, some, arith, leb,
  if◌then◌else◌, Bytes, length, get_or, take, drop, length-append, length-drop,
}

-- `ETHERNET_FRAME_LENGTH`, the size of every node's buffer.
abbrev pub ethernet_frame_length : ℕ
ethernet_frame_length = 1522

-- `ETH_HLEN`, `ETH_DATA_LEN`, `ETH_P_IP`, `ETH_P_IPV6`, `ETH_P_8021Q` of linux/if_ether.h.
abbrev pub eth_hlen : ℕ
eth_hlen = 14

abbrev pub eth_data_len : ℕ
eth_data_len = 1500

abbrev pub eth_p_ip : ℕ
eth_p_ip = 0x0800

abbrev pub eth_p_ipv6 : ℕ
eth_p_ipv6 = 0x86dd

abbrev pub eth_p_8021q : ℕ
eth_p_8021q = 0x8100

-- A byte of a buffer. A read behind its end is kept out by the bounds that the callers check.
abbrev pub at : Bytes → ℕ → ℕ
at buffer i = get_or buffer i 0

-- `memcpy(dst + offset, src, n)`; `none` is a read or a write outside the two buffers.
unfoldable pub memcpy_at : Bytes → ℕ → Bytes → ℕ → Option Bytes
memcpy_at dst offset src n =
    if leb (offset + n) (length dst) && leb n (length src)
    then some (take offset dst ++ (take n src ++ drop (offset + n) dst))
    else none

-- A chain of such copies.
infixl 5 ◌>>=◌
abbrev pub ◌>>=◌ {ℓ κ} : {A : Type ℓ} {B : Type κ} → Option A → (A → Option B) → Option B
none >>= f = none
some a >>= f = f a

-- What `pop` leaves in a buffer: the packet, and behind it what the buffer held.
abbrev pub over : Bytes → Bytes → Bytes
over p stale = p ++ drop (length p) stale

pub get_or-append : (p s : Bytes) (i : ℕ) → i < length p → get_or (p ++ s) i 0 ≡ get_or p i 0
get_or-append [] s i h = elim h [ ]
get_or-append (c ∷ p) s zero h = refl
get_or-append (c ∷ p) s (suc i) h = get_or-append p s i (omega arith)

pub take-append_le : (n : ℕ) (p s : Bytes) → n ≤ length p → take n (p ++ s) ≡ take n p
take-append_le zero p s h = refl
take-append_le (suc n) [] s h = absurd (omega arith)
take-append_le (suc n) (c ∷ p) s h = ground (arith, take-append_le n p s)

pub drop-append_le : (n : ℕ) (p s : Bytes) → n ≤ length p → drop n (p ++ s) ≡ drop n p ++ s
drop-append_le zero p s h = refl
drop-append_le (suc n) [] s h = absurd (omega arith)
drop-append_le (suc n) (c ∷ p) s h = drop-append_le n p s (omega arith)

pub length-over : (p stale : Bytes) → length p ≤ length stale → length (over p stale) ≡ length stale
length-over p stale h =
    omega (arith, length-append p (drop (length p) stale), length-drop (length p) stale)
