-- ===== src/Logger.antt =====
-- logger/logger.h and logger/logger.c: the log file and the mutex that guards it. A text is the list of
-- its characters' codes.
pub mod Parts
pub mod Writes
mod Tests
use vlan_tagger.Prelude.{
  ℕ, suc, ◌+◌, ◌-◌, Bool, true, false, List, [], ◌∷◌, ◌++◌, Option, none, some, ltb, if◌then◌else◌,
  ℤ, pos, negsuc, minus_one, Bytes, length, take,
}

-- `Type_e` and `Sender_e`; the last constructor is any other number.
pub data LogType : Type 0 where
  info : LogType
  error : LogType
  warning : LogType
  other_type : LogType

pub data LogSender : Type 0 where
  initiator : LogSender
  parser : LogSender
  sniffer : LogSender
  tagger : LogSender
  sender : LogSender
  other_sender : LogSender

-- The static variables: what was written to `file`, `none` for NULL; the state of `mutex`; and how the
-- coming writes end, `some n` for a failure with `n` characters written. Behind the end of that list
-- all writes succeed.
pub record Log : Type 0 where
  pub file : Option Bytes
  pub locked : Bool
  pub fates : List (Option ℕ)

-- `start_log`, given what is in the file, if `fopen` can open it, and whether the mutex can be made.
unfoldable pub start_log : Option Bytes → Bool → Log → ℤ × Log
start_log none mutex_made log = (minus_one, record log { file = none })
start_log (some contents) mutex_made log =
    if mutex_made
    then (pos 0, record log { file = some contents; locked = false })
    else (minus_one, record log { file = some contents })

-- `stop_log`, given whether `fclose` and `pthread_mutex_destroy` succeed; `none` is `fclose(NULL)`.
unfoldable pub stop_log : Bool → Bool → Log → Option ℤ
stop_log closed destroyed log = elim log.file [
  | none ↦ none
  | some contents ↦
      if closed then (if destroyed then some (pos 0) else some minus_one) else some minus_one
]

-- What the clock answers: `time`, `localtime` and `strftime`, each of which may fail.
pub record Clock : Type 0 where
  pub time : Option ℕ
  pub localtime : ℕ → Option ℕ
  pub strftime : ℕ → Option Bytes

-- `get_time`: the text in the buffer, or `none` for -1.
unfoldable pub get_time : Clock → Option Bytes
get_time clock = elim clock.time [
  | none ↦ none
  | some current_time ↦ elim (clock.localtime current_time) [
    | none ↦ none
    | some time_info ↦ clock.strftime time_info
  ]
]

-- `format` with its arguments: NULL, or what `vsnprintf` returns for them and the text that it leaves in
-- `buffer`.
pub data Message : Type 0 where
  null_format : Message
  message : ℤ → Bytes → Message

-- `returned_val` with what is added to it.
abbrev pub add : ℤ → ℕ → ℤ
add (pos m) n = pos (m + n)
add (negsuc m) n = if ltb m n then pos (n - suc m) else negsuc (m - n)

-- How one `fputs` or `fputc` ends: on NULL, with EOF, or well.
pub data Written : Type 0 where
  null_file : Written
  eof : Log → Written
  written : Log → Written

abbrev pub put_with : Option ℕ → Bytes → Bytes → Log → Written
put_with none text contents log = written (record log { file = some (contents ++ text) })
put_with (some n) text contents log = eof (record log { file = some (contents ++ take n text) })

abbrev pub put : List (Option ℕ) → Bytes → Bytes → Log → Written
put [] text contents log = put_with none text contents log
put (fate ∷ fates) text contents log = put_with fate text contents (record log { fates = fates })

abbrev pub fputs : Bytes → Log → Written
fputs text log = elim log.file [
  | none ↦ null_file
  | some contents ↦ put log.fates text contents log
]

-- `pthread_mutex_lock` and `pthread_mutex_unlock`.
abbrev pub lock : Log → Log
lock log = record log { locked = true }

abbrev pub unlock : Log → Log
unlock log = record log { locked = false }

-- "\t[INFO]\t", "\t[WARN]\t" and "\t[ERR] \t".
abbrev pub type_text : LogType → Bytes
type_text info = 9 ∷ 91 ∷ 73 ∷ 78 ∷ 70 ∷ 79 ∷ 93 ∷ 9 ∷ []
type_text warning = 9 ∷ 91 ∷ 87 ∷ 65 ∷ 82 ∷ 78 ∷ 93 ∷ 9 ∷ []
type_text error = 9 ∷ 91 ∷ 69 ∷ 82 ∷ 82 ∷ 93 ∷ 32 ∷ 9 ∷ []
type_text other_type = 9 ∷ 91 ∷ 73 ∷ 78 ∷ 70 ∷ 79 ∷ 93 ∷ 9 ∷ []

-- "INIT: ", "PARS: ", "SNIF: ", "TAGG: ", "SEND: " and "UNK:  ".
abbrev pub sender_text : LogSender → Bytes
sender_text initiator = 73 ∷ 78 ∷ 73 ∷ 84 ∷ 58 ∷ 32 ∷ []
sender_text parser = 80 ∷ 65 ∷ 82 ∷ 83 ∷ 58 ∷ 32 ∷ []
sender_text sniffer = 83 ∷ 78 ∷ 73 ∷ 70 ∷ 58 ∷ 32 ∷ []
sender_text tagger = 84 ∷ 65 ∷ 71 ∷ 71 ∷ 58 ∷ 32 ∷ []
sender_text sender = 83 ∷ 69 ∷ 78 ∷ 68 ∷ 58 ∷ 32 ∷ []
sender_text other_sender = 85 ∷ 78 ∷ 75 ∷ 58 ∷ 32 ∷ 32 ∷ []

-- The writes of `printL` from the last to the first, each with its own way out; `next` is what comes
-- behind a switch. `fflush` does not change what was written.
abbrev pub write_newline : ℤ → Log → Option (ℤ × Log)
write_newline returned_val log = elim (fputs (10 ∷ []) log) [
  | null_file ↦ none
  | eof log' ↦ some (negsuc 2, unlock log')
  | written log' ↦ some (add returned_val 1, unlock log')
]

abbrev pub write_buffer : Bytes → ℤ → Log → Option (ℤ × Log)
write_buffer buffer returned_val log = elim (fputs buffer log) [
  | null_file ↦ none
  | eof log' ↦ some (negsuc 2, unlock log')
  | written log' ↦ write_newline returned_val log'
]

abbrev pub write_sender : LogSender → (Log → Option (ℤ × Log)) → Log → Option (ℤ × Log)
write_sender initiator next log = elim (fputs (sender_text initiator) log) [
  | null_file ↦ none
  | eof log' ↦ some (negsuc 2, unlock log')
  | written log' ↦ next log'
]
write_sender parser next log = elim (fputs (sender_text parser) log) [
  | null_file ↦ none
  | eof log' ↦ some (negsuc 2, unlock log')
  | written log' ↦ next log'
]
write_sender sniffer next log = elim (fputs (sender_text sniffer) log) [
  | null_file ↦ none
  | eof log' ↦ some (negsuc 2, unlock log')
  | written log' ↦ next log'
]
write_sender tagger next log = elim (fputs (sender_text tagger) log) [
  | null_file ↦ none
  | eof log' ↦ some (negsuc 2, unlock log')
  | written log' ↦ next log'
]
write_sender sender next log = elim (fputs (sender_text sender) log) [
  | null_file ↦ none
  | eof log' ↦ some (negsuc 2, unlock log')
  | written log' ↦ next log'
]
write_sender other_sender next log = elim (fputs (sender_text other_sender) log) [
  | null_file ↦ none
  | eof log' ↦ some (negsuc 2, unlock log')
  | written log' ↦ next log'
]

abbrev pub write_type : LogType → (Log → Option (ℤ × Log)) → Log → Option (ℤ × Log)
write_type info next log = elim (fputs (type_text info) log) [
  | null_file ↦ none
  | eof log' ↦ some (negsuc 2, unlock log')
  | written log' ↦ next log'
]
write_type warning next log = elim (fputs (type_text warning) log) [
  | null_file ↦ none
  | eof log' ↦ some (negsuc 2, unlock log')
  | written log' ↦ next log'
]
write_type error next log = elim (fputs (type_text error) log) [
  | null_file ↦ none
  | eof log' ↦ some (negsuc 2, unlock log')
  | written log' ↦ next log'
]
write_type other_type next log = elim (fputs (type_text other_type) log) [
  | null_file ↦ none
  | eof log' ↦ some (negsuc 2, unlock log')
  | written log' ↦ next log'
]

abbrev pub write_time : Bytes → (Log → Option (ℤ × Log)) → Log → Option (ℤ × Log)
write_time time_buff next log = elim (fputs time_buff log) [
  | null_file ↦ none
  | eof log' ↦ some (negsuc 2, unlock log')
  | written log' ↦ next log'
]

-- `printL`: its return value and the log behind it, or `none` for a write to NULL.
unfoldable pub print_log : LogType → LogSender → Message → Clock → Log → Option (ℤ × Log)
print_log msg_type from null_format clock log = some (minus_one, log)
print_log msg_type from (message returned buffer) clock log = elim (get_time clock) [
  | none ↦ some (negsuc 1, log)
  | some time_buff ↦
      let behind_time = add returned (length time_buff) in
      let behind_sender = add (add behind_time 8) 6 in
      write_time time_buff
        (write_type msg_type (write_sender from (write_buffer buffer behind_sender))) (lock log)
]
