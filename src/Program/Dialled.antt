-- ===== src/Program/Dialled.antt =====
-- The client that run of cmd/s32ftp/main.go makes from a consistent configuration.
use mathlib.Core.Path.{subst}
use s32ftp.Prelude.{
  ℕ, ◌*◌, ◌^◌, ◌<◌, ◌≤◌, ◌≡◌, refl, ap, ◌∙◌, ◌↔◌, Bool, true, false, not, [], Option, none, arith,
  if◌then◌else◌,
}
use s32ftp.Prelude.Int.{ℤ, pos, ltb_ℤ, ◌≤ℤ◌}
use s32ftp.Text.{Str}
use s32ftp.Errors.{Result, ok, err}
use s32ftp.Config.{S3Config}
use s32ftp.Config.Load.Sound.{bind-eq-ok}
use s32ftp.Config.Validate.Sound.{S3IsValid}
use s32ftp.Backend.{
  BackendError, bad_aws_config, small_part, Client, ClientOptions, Credentials, ClientTls, given,
  part_size_of, concurrency_of, credentials_of, client_of, new_client, new_http_client,
}
use s32ftp.Program.{mebibytes, options_of}

mebibytes_lem : (mb : ℕ) → mb < 2 ^ 43 → mebibytes (pos mb) ≡ pos (mb * 2 ^ 20)
unfolding mebibytes
mebibytes_lem mb h = ground arith

module _ (is_transport : Bool) (read_file : Str → Option Str) (has_certificates : Str → Bool)
    (min_part : ℤ) (load_aws : Option ClientTls → Str → Option Credentials → Bool) where
  abbrev dial : ClientOptions → Result BackendError Client
  dial = new_client is_transport read_file has_certificates min_part load_aws

  -- What the client for a consistent section is.
  pub record IsClientOf (c : S3Config) (k : Client) : Type 0 where
    pub part_size :
        (mb : ℕ) → c.part_size_mb ≡ pos mb → mb < 2 ^ 43 → k.part_size ≡ pos (mb * 2 ^ 20)
    pub not_small : min_part ≤ℤ k.part_size
    pub concurrency : k.concurrency ≡ c.upload_concurrency
    pub credentials : (k.credentials ≡ none) ↔ (c.access_key_id ≡ [])

  credentials_lem :
      (c : S3Config) (k : Option Credentials)
      → S3IsValid c
      → credentials_of is_transport read_file has_certificates min_part load_aws (options_of c)
        ≡ ok k
      → (k ≡ none) ↔ (c.access_key_id ≡ [])
  credentials_lem c k v h = ground arith

  abbrev size_for : ℤ → ℤ
  size_for = part_size_of is_transport read_file has_certificates min_part load_aws

  abbrev workers_for : ℤ → ℤ
  workers_for = concurrency_of is_transport read_file has_certificates min_part load_aws

  -- A client for options with these credentials.
  abbrev IsMadeFor : ClientOptions → Option Credentials → Client → Type 0
  IsMadeFor opts cr k =
      (k.part_size ≡ size_for opts.part_size_bytes)
      × (min_part ≤ℤ k.part_size)
      × (k.concurrency ≡ workers_for opts.upload_concurrency)
      × (k.credentials ≡ cr)

  ok_same : (x k : Client) → ◌≡◌ {A = Result BackendError Client} (ok x) (ok k) → x ≡ k
  ok_same x k h = cc

  client_lem :
      (opts : ClientOptions) (tls : Option ClientTls) (cr : Option Credentials) (k : Client)
      → client_of is_transport read_file has_certificates min_part load_aws opts tls cr ≡ ok k
      → IsMadeFor opts cr k
  client_lem opts tls cr k h =
      pick (load_aws tls opts.region cr) (ltb_ℤ (size_for opts.part_size_bytes) min_part) refl h
    where
      pick :
          (a b : Bool)
          → ltb_ℤ (size_for opts.part_size_bytes) min_part ≡ b
          → (if not a
              then err bad_aws_config
              else if b
              then err (small_part (size_for opts.part_size_bytes))
              else ok (record {
                tls = tls;
                credentials = cr;
                region = opts.region;
                use_path_style = opts.force_path_style;
                base_endpoint = given opts.endpoint_url;
                part_size = size_for opts.part_size_bytes;
                concurrency = workers_for opts.upload_concurrency;
              }))
            ≡ ok k
          → IsMadeFor opts cr k
      pick false b e g = absurd (cc)
      pick true true e g = absurd (cc)
      pick true false e g =
          let low : min_part ≤ℤ size_for opts.part_size_bytes = ground arith in
          subst (IsMadeFor opts cr) (ok_same _ k g) (refl, low, refl, refl)

  size_lem :
      (c : S3Config) (mb : ℕ)
      → S3IsValid c
      → c.part_size_mb ≡ pos mb
      → mb < 2 ^ 43
      → size_for (mebibytes c.part_size_mb) ≡ pos (mb * 2 ^ 20)
  size_lem c mb v e h =
      ap (λ n. size_for (mebibytes n)) e
      ∙ ap size_for (mebibytes_lem mb h)
      ∙ positive (at_least v.part_size)
    where
      at_least : pos 5 ≤ℤ c.part_size_mb → 5 ≤ mb
      at_least l = let r : pos 5 ≤ℤ pos mb = subst (λ n. pos 5 ≤ℤ n) e l in omega (arith, r)

      positive : 5 ≤ mb → size_for (pos (mb * 2 ^ 20)) ≡ pos (mb * 2 ^ 20)
      positive l = ground arith

  pub dial-IsClientOf :
      (c : S3Config) (k : Client) → S3IsValid c → dial (options_of c) ≡ ok k → IsClientOf c k
  unfolding new_client
  dial-IsClientOf c k v h =
      let (tls, _, h1) =
        bind-eq-ok (new_http_client is_transport read_file has_certificates (options_of c)) _ h in
      let (cr, e, h2) =
        bind-eq-ok
          (credentials_of is_transport read_file has_certificates min_part load_aws (options_of c))
          _ h1 in
      let (size, low, workers, same) = client_lem (options_of c) tls cr k h2 in
      record {
        part_size = λ mb f l. size ∙ size_lem c mb v f l;
        not_small = low;
        concurrency = workers ∙ kept v.concurrency;
        credentials = rw same (credentials_lem c cr v e);
      }
    where
      kept : pos 1 ≤ℤ c.upload_concurrency → workers_for c.upload_concurrency ≡ c.upload_concurrency
      kept l = ground arith
