-- ===== src/RwManager.antt =====
-- rwmanager/file.go: the lines of a file, read and deleted one by one. Nothing in the program uses it.
mod Lines
use deepin_network_proxy.Prelude.{
  ℕ, zero, suc, ◌+◌, ◌-◌, Option, none, some, List, [], ◌∷◌, ◌++◌, leb, nat_eq, if◌then◌else◌,
  length, get_elem?, take, drop, split_on, set, Bytes, Eq, nat_Eq, list_Eq,
}

-- `LineManager`, with the place in the file that `Seek` has reached.
pub record LineManager : Type 0 where
  pub buf_sl : List Bytes
  pub index : ℕ
  pub offset : ℕ

pub data LineError : Type 0 where
  file_nil read_failed end_of_file : LineError

-- How a method ends: it is done, fails, or panics.
pub data Outcome (A : Type 0) : Type 0 where
  done : A → Outcome A
  failed : LineError → Outcome A
  panicked : Outcome A

abbrev pub zeros : ℕ → Bytes
zeros zero = []
zeros (suc n) = 0 ∷ zeros n

-- The buffer of 512 bytes after one `Read`: what is not read stays zero.
unfoldable pub first_read : Bytes → Bytes
first_read content = take 512 content ++ zeros (512 - length content)

-- `NewLineManager` on a nil file, or on one with that content; an empty file cannot be read.
unfoldable pub new_line_manager : Option Bytes → Outcome LineManager
new_line_manager none = failed file_nil
new_line_manager (some []) = failed read_failed
new_line_manager (some (c ∷ cs)) =
    done (record { buf_sl = split_on 10 (first_read (c ∷ cs)); index = 0; offset = 0 })

-- `ReadLine`: `Seek` passes the line, and the index stays.
unfoldable pub read_line : LineManager → Outcome Bytes × LineManager
read_line f = elim (get_elem? f.buf_sl f.index) [
  | none ↦ (failed end_of_file, f)
  | some buf ↦ (done buf, record f { offset = f.offset + (length buf + 1) })
]

-- `DelLine`: at the last line the slice ends one line further in front.
unfoldable pub del_line : LineManager → Outcome (Unit {0}) × LineManager
del_line f =
    if leb (length f.buf_sl) f.index
    then (failed end_of_file, f)
    else if nat_eq (f.index + 1) (length f.buf_sl)
    then (if nat_eq f.index 0
        then (panicked, f)
        else (done tt, record f { buf_sl = take (f.index - 1) f.buf_sl }))
    else (done tt, record f { buf_sl = take f.index f.buf_sl ++ drop (f.index + 1) f.buf_sl })
