-- ===== src/Logger/Writes.antt =====
-- logger/logger.c: what a call of `printL` writes.
use vlan_tagger.Logger.Parts.{line_of}
use vlan_tagger.Prelude.{
  ℕ, ◌+◌, ◌≡◌, ◌++◌, Option, none, some, ℤ, negsuc, minus_one, Bytes, length, take,
}
use vlan_tagger.Logger.{LogType, LogSender, Message, null_format, message, add}

-- How a call of `printL` ends with the file: the line is in it, or a first part of the line.
pub data Printed (contents line buffer : Bytes) (returned : ℤ) : ℤ → Option Bytes → Type 0 where
  whole :
      (others : ℕ)
      → length line ≡ length buffer + others
      → Printed contents line buffer returned (add returned others) (some (contents ++ line))
  broken :
      (n : ℕ) → Printed contents line buffer returned (negsuc 2) (some (contents ++ take n line))

-- How a call ends, by its arguments and what the clock says.
abbrev pub Ends : LogType → LogSender → Message → Option Bytes → Bytes → ℤ → Option Bytes → Type 0
Ends msg_type from null_format time contents result file =
    (result ≡ minus_one) × (file ≡ some contents)
Ends msg_type from (message returned buffer) none contents result file =
    (result ≡ negsuc 1) × (file ≡ some contents)
Ends msg_type from (message returned buffer) (some time_buff) contents result file =
    Printed contents (line_of msg_type from buffer time_buff) buffer returned result file
