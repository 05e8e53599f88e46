-- ===== src/Session/Site.antt =====
-- The commands of internal/ftpdriver/client.go that make no call of the service: SITE and ALLO.
use s32ftp.Prelude.{ℕ, zero, suc, ◌-◌, Bool, List, [], ◌∷◌, ◌++◌, ◌==◌, map, if◌then◌else◌}
use s32ftp.Text.{Str, codes, str_eq, lead, lower, trim_space}
use s32ftp.Errors.{Error, Result, ok}

-- `ftpserver.AnswerCommand`, and the codes of package ftpserver that the source uses.
pub record Answer : Type 0 where
  pub code : ℕ
  pub message : Str

abbrev pub status_ok : ℕ
status_ok = 200

abbrev pub status_command_not_implemented : ℕ
status_command_not_implemented = 502

-- `strings.Fields`: the words between white space. `k` bytes of a white space character are left, and
-- `word` is what has been read of a word.
abbrev pub end_word : Str → List Str → List Str
end_word [] rest = rest
end_word (c ∷ word) rest = (c ∷ word) ∷ rest

unfoldable pub fields_from : ℕ → Str → Str → List Str
unfolding lead
fields_from k word [] = end_word word []
fields_from (suc k) word (c ∷ s) = fields_from k word s
fields_from zero word (c ∷ s) =
    let width = lead (c ∷ s) in
    let rest = fields_from (width - 1) (if width == 0 then word ++ (c ∷ []) else []) s in
    if width == 0 then rest else end_word word rest

abbrev pub fields : Str → List Str
fields s = fields_from 0 [] s

-- `strings.EqualFold(s, "CHMOD")`: no code point beyond ASCII folds to one of its letters.
unfoldable pub is_chmod : Str → Bool
unfolding str_eq
is_chmod s = str_eq (map lower s) (codes "chmod")

-- Client.Site.
abbrev pub ignored : Answer
ignored = record {
  code = status_ok;
  message = codes "SITE CHMOD is not supported by the S3 backend and was ignored";
}

abbrev pub not_implemented : Str → Answer
not_implemented param = record {
  code = status_command_not_implemented;
  message = codes "SITE " ++ (trim_space param ++ codes " is not implemented");
}

abbrev pub answer_fields : Str → List Str → Answer
answer_fields param [] = not_implemented param
answer_fields param (word ∷ rest) = if is_chmod word then ignored else not_implemented param

unfoldable pub site : Str → Answer
unfolding fields_from is_chmod trim_space
site param = answer_fields param (fields param)

-- Client.AllocateSpace.
abbrev pub allocate_space : ℕ → Result Error (Unit {0})
allocate_space size = ok tt
