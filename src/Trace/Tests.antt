-- ===== src/Trace/Tests.antt =====
-- The theorems about the error trace of libc/sbp_perror.c at small traces.
use sbpfs.Common.{◌≡◌, refl, true, List, [], ◌∷◌, ◌++◌, codes}
use sbpfs.Head.{HeadEntry}
use sbpfs.Trace.{Place, err_type, err_detail, update_place, sbp_update_err, sbp_perror}
use sbpfs.Trace.Order.{
  error_of, Report, report_all, newest_first, sbp_perror-newest_first, sbp_update_err-reply,
}

abbrev place : Place
place = record { file = codes "lib.c"; line = 207; func = codes "sendrec_hostname" }

abbrev reports : List Report
reports =
    record { type = codes "Socket Error"; detail = codes "Could not send"; place = place }
    ∷ record { type = codes "Memory Error"; detail = codes "Malloc failed"; place = place }
    ∷ []

sbp_perror-newest_first_example :
    sbp_perror (report_all (λ _. true) reports []) ≡ (newest_first reports, [])
sbp_perror-newest_first_example = sbp_perror-newest_first (λ _. true) reports (λ _. refl)

abbrev user_entry : HeadEntry
user_entry = record { name = codes "User"; value = codes "a" }

sbp_update_err-reply_example :
    sbp_update_err
      (λ _. true)
      (record {
        head_len = 9;
        title = codes "SBPFS/1.0 ERROR";
        entrys =
            (user_entry ∷ [])
            ++ record { name = err_type; value = codes "t" }
              ∷ record { name = err_detail; value = codes "d" }
              ∷ user_entry
              ∷ [];
      })
      []
    ≡ error_of (codes "t") (codes "d") update_place ∷ []
sbp_update_err-reply_example =
    sbp_update_err-reply (λ _. true) (codes "SBPFS/1.0 ERROR") (codes "t") (codes "d") 9
      (user_entry ∷ []) (user_entry ∷ []) [] (λ _. refl) ((refl, refl), tt)
