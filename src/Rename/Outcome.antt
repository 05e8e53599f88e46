-- ===== src/Rename/Outcome.antt =====
-- What Rename of internal/s3fs/dir.go has done when it reports no error.
use s32ftp.Prelude.{◌≡◌, sym, ◌∙◌, inl, inr, false, Bool-cases}
use s32ftp.Text.{Str, str_eq}
use s32ftp.Text.Laws.{str_eq_iff}
use s32ftp.Keys.{clean_ftp_path}
use s32ftp.Keys.Root.{join_root-injective}
use s32ftp.Action.{◌>>◌}
use s32ftp.Service.{Service}
use s32ftp.Fs.{Fs, key}

-- The two keys of a rename are different.
pub keys_differ :
    (f : Fs) (old_clean new_clean : Str)
    → clean_ftp_path old_clean ≡ old_clean
    → clean_ftp_path new_clean ≡ new_clean
    → str_eq old_clean new_clean ≡ false
    → str_eq (key f new_clean) (key f old_clean) ≡ false
keys_differ f old_clean new_clean p q ne =
    elim (Bool-cases (str_eq (key f new_clean) (key f old_clean))) [
      | inl e ↦
          let same =
            (join_root-injective f.root_prefix new_clean old_clean).0 ((str_eq_iff _ _).0 e) in
          absurd (cc (sym ne ∙ (str_eq_iff old_clean new_clean).1 (sym p ∙ sym same ∙ q)))
      | inr e ↦ e
    ]
