-- ===== src/Trace/Order.antt =====
-- What the error trace of libc/sbp_perror.c shows, and what a reply adds to it.
use mathlib.Core.List.{append_assoc, append-nil}
use sbpfs.Common.{
  ℕ, ◌+◌, ◌≡◌, refl, ap, ◌∙◌, sym, Bool, true, false, none, List, [], ◌∷◌, ◌++◌, length, str_eq,
  All,
}
use sbpfs.Head.Strings.{Bytes}
use sbpfs.Head.{HeadEntry}
use sbpfs.Trace.{
  Place, SbpErr, Trace, err_type, err_detail, clear_err, sbp_seterr, update_loop, update_place,
  sbp_update_err, sbp_perror,
}

-- the error of a call of the macro `seterr`
abbrev pub error_of : Bytes → Bytes → Place → SbpErr
error_of type detail place = record {
  line = place.line;
  type = type;
  detail = detail;
  file = place.file;
  func = place.func;
}

-- one call of `seterr`
pub record Report : Type 0 where
  pub type : Bytes
  pub detail : Bytes
  pub place : Place

-- the errors of calls that came one after the other, over a trace
abbrev pub report_all : (ℕ → Bool) → List Report → Trace → Trace
report_all grants [] trace = trace
report_all grants (r ∷ rs) trace =
    report_all grants rs (sbp_seterr grants r.type r.detail r.place trace)

-- newest first
abbrev pub newest_first : List Report → List SbpErr
newest_first [] = []
newest_first (r ∷ rs) = newest_first rs ++ (error_of r.type r.detail r.place ∷ [])

pub sbp_seterr_granted :
    (grants : ℕ → Bool) (type detail : Bytes) (place : Place) (trace : Trace)
    → ((n : ℕ) → grants n ≡ true)
    → sbp_seterr grants type detail place trace ≡ error_of type detail place ∷ trace
unfolding sbp_seterr
sbp_seterr_granted grants type detail place trace granted =
    rw
      (
        granted 48,
        granted (length type + 1),
        granted (length detail + 1),
        granted (length place.file + 1),
        granted (length place.func + 1),
      )
      refl

sbp_perror_lem : (trace : Trace) → sbp_perror trace ≡ (trace, [])
unfolding sbp_perror clear_err
sbp_perror_lem [] = refl
sbp_perror_lem (e ∷ trace) = λ i. (e ∷ (sbp_perror_lem trace i).0, (sbp_perror_lem trace i).1)

report_all_lem :
    (grants : ℕ → Bool) (rs : List Report) (trace : Trace)
    → ((n : ℕ) → grants n ≡ true)
    → report_all grants rs trace ≡ newest_first rs ++ trace
report_all_lem grants [] trace granted = refl
report_all_lem grants (r ∷ rs) trace granted =
    report_all_lem grants rs (sbp_seterr grants r.type r.detail r.place trace) granted
    ∙ (ap (λ t. newest_first rs ++ t)
          (sbp_seterr_granted grants r.type r.detail r.place trace granted)
        ∙ sym (append_assoc (newest_first rs) (error_of r.type r.detail r.place ∷ []) trace))

-- With memory for the errors, `sbp_perror` prints every error that was set since the trace was
-- empty, the newest first, and leaves an empty trace.
pub sbp_perror-newest_first :
    (grants : ℕ → Bool) (rs : List Report)
    → ((n : ℕ) → grants n ≡ true)
    → sbp_perror (report_all grants rs []) ≡ (newest_first rs, [])
sbp_perror-newest_first grants rs granted = sbp_perror_lem (report_all grants rs []) ∙ λ i.
    ((report_all_lem grants rs [] granted ∙ append-nil (newest_first rs)) i, [])

-- An entry that is neither a type nor a detail.
abbrev pub IsOther : HeadEntry → Type 0
IsOther e = (str_eq e.name err_type ≡ false) × (str_eq e.name err_detail ≡ false)

update_loop-skip :
    (grants : ℕ → Bool) (place : Place) (es rest : List HeadEntry) (trace : Trace)
    → All IsOther es
    → update_loop grants place (es ++ rest) none none trace
      ≡ update_loop grants place rest none none trace
unfolding update_loop
update_loop-skip grants place [] rest trace h = refl
update_loop-skip grants place (e ∷ es) rest trace ((t, d), h) =
    rw (t, d) (update_loop-skip grants place es rest trace h)

-- With memory for it, an error reply that names its type and then its detail, one entry after the
-- other, adds this one error to the trace, whatever entries stand behind them and whatever entries of
-- other names stand before them.
pub sbp_update_err-reply :
    (grants : ℕ → Bool) (title type detail : Bytes) (head_len : ℕ) (before after : List HeadEntry)
    (trace : Trace)
    → ((n : ℕ) → grants n ≡ true)
    → All IsOther before
    → sbp_update_err grants
        (record {
          head_len = head_len;
          title = title;
          entrys =
              before
              ++ record { name = err_type; value = type }
                ∷ record { name = err_detail; value = detail }
                ∷ after;
        })
        trace
      ≡ error_of type detail update_place ∷ trace
unfolding sbp_update_err update_loop
sbp_update_err-reply grants title type detail head_len before after trace granted h =
    update_loop-skip grants update_place before _ trace h
    ∙ sbp_seterr_granted grants type detail update_place trace granted
