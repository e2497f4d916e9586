-- ===== src/Trace.antt =====
-- The error trace of the client library: `sbp_seterr`, `sbp_update_err`, `sbp_perror`, `free_err` and
-- `clear_err` of libc/sbp_perror.c. The trace is the list that `err_trace` heads, newest error first.
pub mod Order
mod Tests
use sbpfs.Common.{
  ℕ, zero, suc, ◌+◌, Bool, ◌&&◌, if◌then◌else◌, Option, none, some, List, [], ◌∷◌, ◌++◌, length,
  codes, str_eq,
}
use sbpfs.Head.Strings.{Bytes}
use sbpfs.Head.{Head, HeadEntry}

abbrev pub err_type : Bytes
err_type = codes "Error-Type"

abbrev pub err_detail : Bytes
err_detail = codes "Error-Detail"

-- what the macro `seterr` adds: `__FILE__`, `__LINE__` and `__FUNCTION__`
pub record Place : Type 0 where
  pub file : Bytes
  pub line : ℕ
  pub func : Bytes

pub record SbpErr : Type 0 where
  pub line : ℕ
  pub type : Bytes
  pub detail : Bytes
  pub file : Bytes
  pub func : Bytes

abbrev pub Trace : Type 0
Trace = List SbpErr

-- `free_err`: the newest error is taken off
unfoldable pub free_err : Trace → Trace
free_err [] = []
free_err (e ∷ trace) = trace

-- `while(err_trace!=NULL) free_err();`
unfoldable pub clear_err : Trace → Trace
clear_err [] = []
clear_err (e ∷ trace) = clear_err trace

-- The `malloc`s of a new error and of its four strings, in their order, by size.
abbrev pub err_granted : (ℕ → Bool) → SbpErr → Bool
err_granted grants e =
    grants (length e.type + 1)
    && grants (length e.detail + 1)
    && grants (length e.file + 1)
    && grants (length e.func + 1)

-- A new error is put in front, and taken off again where there is no memory for its strings.
unfoldable pub sbp_seterr : (ℕ → Bool) → Bytes → Bytes → Place → Trace → Trace
unfolding free_err
sbp_seterr grants type detail place trace =
    let e : SbpErr = record {
      line = place.line;
      type = type;
      detail = detail;
      file = place.file;
      func = place.func;
    } in
    if grants 48 then (if err_granted grants e then e ∷ trace else free_err (e ∷ trace)) else trace

-- `if((type!=NULL)&&(detail)) { seterr(type,detail); return; }`, and the rest of the loop else
abbrev pub set_if_both : (ℕ → Bool) → Place → Option Bytes → Option Bytes → Trace → Trace → Trace
set_if_both grants place none detail trace rest = rest
set_if_both grants place (some type) none trace rest = rest
set_if_both grants place (some type) (some detail) trace rest =
    sbp_seterr grants type detail place trace

-- The loop of `sbp_update_err` over the entries: the type and the detail that it has seen.
update_loop : (ℕ → Bool) → Place → List HeadEntry → Option Bytes → Option Bytes → Trace → Trace
update_loop grants place [] type detail trace = trace
update_loop grants place (e ∷ es) type detail trace =
    let type' = if str_eq e.name err_type then some e.value else type in
    let detail' =
      if str_eq e.name err_type
      then detail
      else if str_eq e.name err_detail
      then some e.value
      else detail in
    set_if_both grants place type' detail' trace (update_loop grants place es type' detail' trace)

abbrev pub update_place : Place
update_place = record { file = codes "sbp_perror.c"; line = 92; func = codes "sbp_update_err" }

unfoldable pub sbp_update_err : (ℕ → Bool) → Head → Trace → Trace
unfolding update_loop
sbp_update_err grants head trace = update_loop grants update_place head.entrys none none trace

-- The errors that `sbp_perror` prints, in order, and the trace that it leaves.
unfoldable pub sbp_perror : Trace → List SbpErr × Trace
unfolding clear_err
sbp_perror [] = ([], clear_err [])
sbp_perror (e ∷ trace) = (e ∷ (sbp_perror trace).0, (sbp_perror trace).1)
