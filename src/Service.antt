-- ===== src/Service.antt =====
-- The S3 client as an interface: `s3.Client` of the AWS SDK and the service behind it. The calls take
-- the world and may change it also when they fail. Contexts are left out: a call that is cancelled or
-- times out is one that fails.
pub mod Lawful
pub mod Faithful
pub mod Thorough
pub mod Delimited
pub mod Willing
pub mod Memory
use s32ftp.Prelude.{ℕ, Bool, List, Option, none, some}
use s32ftp.Text.{Str}
use s32ftp.Errors.{S3Error, Result}

-- The parts of `s3.HeadObjectOutput` that the source reads; both are pointers.
pub record Head : Type 0 where
  pub content_length : Option ℕ
  pub last_modified : Option ℕ

-- An entry of `Contents` of a listing.
pub record Entry : Type 0 where
  pub key : Str
  pub size : Option ℕ
  pub last_modified : Option ℕ

-- `s3.ListObjectsV2Input` without the bucket, and the parts of its output that the source reads.
pub record ListRequest : Type 0 where
  pub prefix : Str
  pub delimiter : Option Str
  pub max_keys : Option ℕ
  pub token : Option Str

pub record Page : Type 0 where
  pub contents : List Entry
  pub common_prefixes : List Str
  pub is_truncated : Bool
  pub next_token : Option Str

-- `s3.PutObjectInput` without bucket and key.
pub record Upload : Type 0 where
  pub body : Str
  pub content_type : Option Str

abbrev pub Reply : Type 0 → Type 0
Reply A = Result S3Error A

-- Bucket and key come first. A copy takes the target's bucket and key, and the CopySource header.
-- `get_object` takes the start of a Range header `bytes=start-`; it replies with the body.
-- `delete_objects` replies with the keys that it could not delete.
pub record Service : Type 1 where
  pub World : Type 0
  pub head_object : Str → Str → World → Reply Head × World
  pub get_object : Str → Str → Option ℕ → World → Reply Str × World
  pub list_objects : Str → ListRequest → World → Reply Page × World
  pub put_object : Str → Str → Upload → World → Reply (Unit {0}) × World
  pub copy_object : Str → Str → Str → World → Reply (Unit {0}) × World
  pub delete_object : Str → Str → World → Reply (Unit {0}) × World
  pub delete_objects : Str → List Str → World → Reply (List Str) × World
  pub head_bucket : Str → World → Reply (Unit {0}) × World
  pub create_bucket : Str → World → Reply (Unit {0}) × World
