-- ===== src/Logger/Parts.antt =====
-- logger/logger.c: what the writes of `printL` leave, one behind the other.
use vlan_tagger.Prelude.{
  ℕ, zero, suc, ◌+◌, ◌≡◌, refl, ap, ◌∙◌, sym, false, List, [], ◌∷◌, ◌++◌, append_assoc, Option,
  none, some, true, ℤ, negsuc, Bytes, length, take, arith,
}
use vlan_tagger.Logger.{
  LogType, LogSender, Log, type_text, sender_text, info, error, warning, other_type, initiator,
  parser, sniffer, tagger, sender, other_sender, add, Written, null_file, eof, written, fputs,
  unlock, write_newline, write_buffer, write_sender, write_type, write_time,
}

-- The line of a message: the time, the type, the sender, the message and a newline.
abbrev pub line_of : LogType → LogSender → Bytes → Bytes → Bytes
line_of msg_type from buffer time_buff =
    time_buff ++ (type_text msg_type ++ (sender_text from ++ (buffer ++ 10 ∷ [])))

take-append_add : (p s : Bytes) (n : ℕ) → take (length p + n) (p ++ s) ≡ p ++ take n s
take-append_add [] s n = ap (λ m. take m s) (omega arith)
take-append_add (c ∷ p) s n =
    let later : suc (length p) + n ≡ suc (length p + n) = omega arith in
    rw later (ap (λ cs. c ∷ cs) (take-append_add p s n))

take_prefix : (p s : Bytes) (n : ℕ) → (m : ℕ) × (take n p ≡ take m (p ++ s))
take_prefix p s zero = (0, refl)
take_prefix [] s (suc n) = (0, refl)
take_prefix (c ∷ p) s (suc n) = let (m, e) = take_prefix p s n in (suc m, ap (λ cs. c ∷ cs) e)

-- What a part of `printL` leaves that has `text` to write and returns `value` if it can: the mutex free,
-- and all of the text or a first part of it.
pub data Leaves (contents text : Bytes) (value : ℤ) : Option (ℤ × Log) → Type 0 where
  all :
      (log : Log)
      → log.locked ≡ false
      → log.file ≡ some (contents ++ text)
      → Leaves contents text value (some (value, log))
  part :
      (n : ℕ) (log : Log)
      → log.locked ≡ false
      → log.file ≡ some (contents ++ take n text)
      → Leaves contents text value (some (negsuc 2, log))

-- One write and its way out.
abbrev put_then : (Log → Option (ℤ × Log)) → Written → Option (ℤ × Log)
put_then next null_file = none
put_then next (eof log) = some (negsuc 2, unlock log)
put_then next (written log) = next log

abbrev pub opened : Bytes → List (Option ℕ) → Log
opened contents fates = record { file = some contents; locked = true; fates = fates }

Leaves-later :
    (contents text rest : Bytes) (value : ℤ) (o : Option (ℤ × Log))
    → Leaves (contents ++ text) rest value o
    → Leaves contents (text ++ rest) value o
Leaves-later contents text rest value o (all log free e) =
    all log free (e ∙ ap some (append_assoc contents text rest))
Leaves-later contents text rest value o (part n log free e) = part (length text + n) log free (
    e
    ∙ ap some (
        append_assoc contents text (take n rest)
        ∙ ap (λ t. contents ++ t) (sym (take-append_add text rest n))))

put_then-Leaves :
    (next : Log → Option (ℤ × Log)) (contents text rest : Bytes) (value : ℤ)
    (fates : List (Option ℕ))
    → ((fates' : List (Option ℕ))
        → Leaves (contents ++ text) rest value (next (opened (contents ++ text) fates')))
    → Leaves contents (text ++ rest) value (put_then next (fputs text (opened contents fates)))
put_then-Leaves next contents text rest value [] later =
    Leaves-later contents text rest value _ (later [])
put_then-Leaves next contents text rest value (none ∷ fates) later =
    Leaves-later contents text rest value _ (later fates)
put_then-Leaves next contents text rest value (some n ∷ fates) later =
    let (m, e) = take_prefix text rest n in part m _ refl (ap (λ t. some (contents ++ t)) e)

-- The writes have one such way out each.
ways_out :
    (next : Log → Option (ℤ × Log)) (w : Written)
    → let o : Option (ℤ × Log) = elim w [
      | null_file ↦ none
      | eof log ↦ some (negsuc 2, unlock log)
      | written log ↦ next log
    ] in
      o ≡ put_then next w
ways_out next null_file = refl
ways_out next (eof log) = refl
ways_out next (written log) = refl

write_type-put_then :
    (msg_type : LogType) (next : Log → Option (ℤ × Log)) (log : Log)
    → write_type msg_type next log ≡ put_then next (fputs (type_text msg_type) log)
write_type-put_then info next log = ways_out next (fputs (type_text info) log)
write_type-put_then warning next log = ways_out next (fputs (type_text warning) log)
write_type-put_then error next log = ways_out next (fputs (type_text error) log)
write_type-put_then other_type next log = ways_out next (fputs (type_text other_type) log)

write_sender-put_then :
    (from : LogSender) (next : Log → Option (ℤ × Log)) (log : Log)
    → write_sender from next log ≡ put_then next (fputs (sender_text from) log)
write_sender-put_then initiator next log = ways_out next (fputs (sender_text initiator) log)
write_sender-put_then parser next log = ways_out next (fputs (sender_text parser) log)
write_sender-put_then sniffer next log = ways_out next (fputs (sender_text sniffer) log)
write_sender-put_then tagger next log = ways_out next (fputs (sender_text tagger) log)
write_sender-put_then sender next log = ways_out next (fputs (sender_text sender) log)
write_sender-put_then other_sender next log = ways_out next (fputs (sender_text other_sender) log)

write_newline-Leaves :
    (returned : ℤ) (contents : Bytes) (fates : List (Option ℕ))
    → Leaves contents (10 ∷ []) (add returned 1) (write_newline returned (opened contents fates))
write_newline-Leaves returned contents [] = all _ refl refl
write_newline-Leaves returned contents (none ∷ fates) = all _ refl refl
write_newline-Leaves returned contents (some n ∷ fates) = part n _ refl refl

module _ (returned : ℤ) (buffer : Bytes) where
  write_buffer-Leaves :
      (contents : Bytes) (fates : List (Option ℕ))
      → Leaves contents
          (buffer ++ 10 ∷ [])
          (add returned 1)
          (write_buffer buffer returned (opened contents fates))
  write_buffer-Leaves contents fates =
      rw (ways_out (write_newline returned) (fputs buffer (opened contents fates))) (
        put_then-Leaves (write_newline returned) contents buffer (10 ∷ []) (add returned 1) fates
          (write_newline-Leaves returned (contents ++ buffer)))

  write_sender-Leaves :
      (from : LogSender) (contents : Bytes) (fates : List (Option ℕ))
      → Leaves contents
          (sender_text from ++ (buffer ++ 10 ∷ []))
          (add returned 1)
          (write_sender from (write_buffer buffer returned) (opened contents fates))
  write_sender-Leaves from contents fates =
      rw (write_sender-put_then from (write_buffer buffer returned) (opened contents fates)) (
        put_then-Leaves (write_buffer buffer returned) contents (sender_text from)
          (buffer ++ 10 ∷ []) (add returned 1) fates
          (write_buffer-Leaves (contents ++ sender_text from)))

  write_type-Leaves :
      (msg_type : LogType) (from : LogSender) (contents : Bytes) (fates : List (Option ℕ))
      → Leaves contents
          (type_text msg_type ++ (sender_text from ++ (buffer ++ 10 ∷ [])))
          (add returned 1)
          (write_type msg_type
            (write_sender from (write_buffer buffer returned))
            (opened contents fates))
  write_type-Leaves msg_type from contents fates =
      let next = write_sender from (write_buffer buffer returned) in
      rw (write_type-put_then msg_type next (opened contents fates)) (
        put_then-Leaves next contents (type_text msg_type) (sender_text from ++ (buffer ++ 10 ∷ []))
          (add returned 1) fates (write_sender-Leaves from (contents ++ type_text msg_type)))

  pub write_time-Leaves :
      (msg_type : LogType) (from : LogSender) (time_buff contents : Bytes) (fates : List (Option ℕ))
      → Leaves contents (line_of msg_type from buffer time_buff) (add returned 1) (
          write_time time_buff
            (write_type msg_type (write_sender from (write_buffer buffer returned)))
            (opened contents fates))
  write_time-Leaves msg_type from time_buff contents fates =
      let next = write_type msg_type (write_sender from (write_buffer buffer returned)) in
      rw (ways_out next (fputs time_buff (opened contents fates))) (
        put_then-Leaves next contents time_buff
          (type_text msg_type ++ (sender_text from ++ (buffer ++ 10 ∷ []))) (add returned 1) fates
          (write_type-Leaves msg_type from (contents ++ time_buff)))
