-- ===== src/Fs/Free.antt =====
-- What prefixHasObjects of internal/s3fs/fs.go tells of the objects below a prefix.
use s32ftp.Prelude.{
  Bool, ◌≡◌, refl, sym, ap, ◌∙◌, false, true, not, List, [], ◌∷◌, Option, none, some, arith,
}
use s32ftp.Text.{Str, has_prefix}
use s32ftp.Errors.{ok}
use s32ftp.Action.{ret, call}
use s32ftp.Action.Rules.{called, ok_pair, >>=-eq-ok}
use s32ftp.Service.{Service, Entry, Page}
use s32ftp.Service.Lawful.{Object, View, IsConfined}
use s32ftp.Service.Thorough.{IsThorough}
use s32ftp.Fs.{Fs, list_request, nonempty, prefix_has_objects}
use s32ftp.Dir.AllKeys.{Same}

module _ (S : Service) (at : View S) (C : IsConfined S at) (T : IsThorough S at) (f : Fs) where
  empty_page :
      (prefix : Str) (w : S.World) (page : Page)
      → (S.list_objects f.bucket (list_request prefix (some 1)) w).0 ≡ ok page
      → nonempty page.contents ≡ false
      → (k : Str) → has_prefix prefix k ≡ true
      → at w f.bucket k ≡ none
  empty_page prefix w page e free k p = pick (at w f.bucket k) refl
    where
      no_entries : (es : List Entry) → nonempty es ≡ false → es ≡ []
      no_entries [] h = refl
      no_entries (x ∷ es) h = absurd (cc)

      pick : (x : Option Object) → at w f.bucket k ≡ x → x ≡ none
      pick none there = refl
      pick (some o) there =
          absurd
            (T.shows f.bucket prefix k 1 w e (omega arith) there p (no_entries page.contents free))

  -- When prefixHasObjects says that there is none, there is none.
  pub prefix_free :
      (prefix : Str) (w v : S.World) (exists : Bool)
      → prefix_has_objects S f prefix w ≡ (ok exists, v)
      → not exists ≡ true
      → Same S at v w × ((k : Str) → has_prefix prefix k ≡ true → at w f.bucket k ≡ none)
  unfolding prefix_has_objects ret
  prefix_free prefix w v exists h free =
      let (page, u, e, g) =
        >>=-eq-ok (call (S.list_objects f.bucket (list_request prefix (some 1)))) _ w h in
      let (shown, listed) = called _ w u page e in
      let (answer, moved) = ok_pair g in
      (
        λ b k. ap (λ x. at x b k) (sym (listed ∙ moved)) ∙ C.list_frame _ _ w b k,
        empty_page prefix w page shown (ground (arith, answer)),
      )
