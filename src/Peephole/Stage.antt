-- ===== src/Peephole/Stage.antt =====
-- The writes to the staging buffer of compiler/source/compiler/sc7.c: `stgwrite`, `stgmark`, `stgget`,
-- `stgdel` and `stgset`. The buffer is the list of the bytes that are allocated and written; growing
-- it adds bytes only where they are written next.
pub mod Undone
pub mod Filled
use pawn_x.Prelude.{
  ℕ, ◌+◌, ◌-◌, Bool, ◌&&◌, not, ltb, ◌==◌, if◌then◌else◌, List, [], ◌∷◌, ◌++◌, Option, none, some,
  length, take, drop, get_or,
}

-- `stgbuf`, `stgidx`, `stglen`, `staging`, `code_idx`, whether `sc_status` is statWRITE, and the lines of
-- the output file.
pub record Stage : Type 0 where
  pub stgbuf : List ℕ
  pub stgidx : ℕ
  pub stglen : ℕ
  pub staging : Bool
  pub code_idx : ℕ
  pub writing : Bool
  pub outf : List (List ℕ)

-- `memcpy(stgbuf+i,bytes,...)`
abbrev pub copy_to : ℕ → List ℕ → List ℕ → List ℕ
copy_to i bytes buf = take i buf ++ (bytes ++ drop (i + length bytes) buf)

-- `stgidx>=2 && stgbuf[stgidx-1]=='\0' && stgbuf[stgidx-2]!='\n'`
abbrev pub joins : List ℕ → ℕ → Bool
joins buf idx = ltb 1 idx && ((get_or buf (idx - 1) 0 == 0) && not (get_or buf (idx - 2) 0 == 10))

-- `filewrite` of the string at the start of the buffer.
abbrev pub filewrite : List ℕ → Stage → Stage
filewrite string s = if s.writing then record s { outf = s.outf ++ string ∷ [] } else s

-- `stgbuf[0]='\0'; stglen=0;`
abbrev pub emptied : Stage → Stage
emptied s = record s { stgbuf = copy_to 0 (0 ∷ []) (s.stgbuf); stglen = 0 }

-- `stgwrite` on a string, given without its zero byte.
abbrev pub write_staged : List ℕ → Stage → Stage
write_staged str s =
    let i = (if joins (s.stgbuf) (s.stgidx) then s.stgidx - 1 else s.stgidx) in
    record s {
      stgbuf = copy_to i (str ++ 0 ∷ []) (s.stgbuf);
      stgidx = i + length str + 1;
      stglen = s.stglen + length str;
    }

abbrev pub write_through : List ℕ → Stage → Stage
write_through str s =
    let len = s.stglen + length str in
    let buf = copy_to (s.stglen) (str ++ 0 ∷ []) (s.stgbuf) in
    let s' = record s { stgbuf = buf; stglen = len } in
    if ltb 0 len && (get_or buf (len - 1) 0 == 10)
    then emptied (filewrite (take len buf) s')
    else s'

unfoldable pub stgwrite : List ℕ → Stage → Stage
stgwrite str s = if s.staging then write_staged str s else write_through str s

unfoldable pub stgmark : ℕ → Stage → Stage
stgmark mark s =
    if s.staging
    then record s {
      stgbuf = copy_to (s.stgidx) (mark ∷ []) (s.stgbuf);
      stgidx = s.stgidx + 1;
      stglen = s.stglen + 1;
    }
    else s

unfoldable pub stgget : Stage → Option (ℕ × ℕ)
stgget s = if s.staging then some (s.stgidx, s.code_idx) else none

unfoldable pub stgdel : ℕ → ℕ → Stage → Stage
stgdel index code_index s =
    if s.staging then record s { stgidx = index; code_idx = code_index } else s

-- `stgset`; what `stgwrite` has left in the buffer is written.
unfoldable pub stgset : Bool → Stage → Stage
stgset onoff s =
    let s' = record s { staging = onoff } in
    if onoff
    then emptied (
        if ltb 0 (s.stglen)
        then filewrite (take (s.stglen) (s.stgbuf)) (record s' { stgidx = 0 })
        else record s' { stgidx = 0 })
    else emptied s'

-- What the code generator sends: strings and marks, with what it adds to `code_idx` beside.
pub data Piece : Type 0 where
  string_piece : List ℕ → Piece
  mark_piece : ℕ → Piece
  code_piece : ℕ → Piece

abbrev pub send : Piece → Stage → Stage
send (string_piece str) s = stgwrite str s
send (mark_piece mark) s = stgmark mark s
send (code_piece size) s = record s { code_idx = s.code_idx + size }

unfoldable pub send_all : List Piece → Stage → Stage
send_all [] s = s
send_all (p ∷ ps) s = send_all ps (send p s)
