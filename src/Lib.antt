-- ===== src/Lib.antt =====
-- s32ftp: an FTP gateway to S3 (Go). An FTP server library drives it: internal/ftpdriver accepts
-- clients and logs them in by the configuration of internal/config, and gives each a view of a bucket
-- below a root prefix, internal/s3fs, whose operations are calls of the S3 client. This library models
-- those parts as functions and states what makes them correct.
--
-- Which file models which part, with the source's names in the comments of the files:
--   Text             Go strings as lists of bytes, and what the source uses of the package strings
--   Keys             internal/s3fs/path.go: CleanFTPPath, joinRoot, dirKey, relativeName, copySource;
--                    path.Clean and url.PathEscape are written out
--   Errors           the errors of internal/s3fs (backend.go: isNotFound, isRetryable) as values
--   Action           functions that take the world and give a result and the next world, and the rules
--                    by which they keep an invariant
--   Service          the S3 client and the service behind it: an interface, its law that calls touch
--                    only the keys they name (Service/Lawful), what a call that succeeds has done and the
--                    uploader of the SDK (Service/Faithful), listings, copies and deletions of many
--                    keys (Service/Thorough), listings by folders (Service/Delimited), a service that
--                    does what it is asked (Service/Willing), and a service in memory that obeys them
--   Info, Fs         internal/s3fs/fileinfo.go, helpers.go and fs.go: FileInfo, FS, Stat, headObject
--   Listing          ReadDir of internal/s3fs/dir.go
--   Dir, Rename      the other operations of internal/s3fs/dir.go
--   Handle           the handle of a directory, internal/s3fs/file.go
--   Download         the handle of a download, internal/s3fs/download.go; what the network delivers at
--                    each Read is an argument
--   Upload           the handle of an upload and its goroutine, internal/s3fs/upload.go: the calls of
--                    the client and the steps of the goroutine (Upload/Run) in any order
--                    (Upload/Schedule)
--   Opening          Open, OpenFile, Create and GetHandle of internal/s3fs/fs.go, and the methods that
--                    the handles refuse (Opening/Methods)
--   Session          the operations that a client may ask for, as commands one after another, and with
--                    transfers (Session/Transfers); an upload that is read back (Session/RoundTrip),
--                    and what a listing then shows (Session/Listed);
--                    the answers to SITE and ALLO (Session/Site)
--   Isolation        which objects each operation can change
--   Config           internal/config/config.go: defaults, normalising, environment, Validate, Load
--   Driver           internal/ftpdriver/driver.go and tls.go: clients, settings, logins
--   Backend          NewClient, newHTTPClient and EnsureBucket of internal/s3fs/backend.go
--   Logging          internal/logging/logging.go
--   Program          cmd/s32ftp/main.go: how the parts are put together
--   Tests            runs of the definitions, and the theorems at concrete data
--
-- Numbers: an int of the configuration is an integer without bounds, except where strconv.Atoi refuses
-- what does not fit 64 bits; sizes, times and ids are natural numbers. Each method of the driver holds
-- the mutex and is one step.
--
-- The loops over the pages of a listing have no bound in the source: they go on while the service says
-- that there is more. Their functions take fuel and throw `diverged` without it; for a service that
-- ends its listing, as many units as there are pages are enough. The loop over the batches of a
-- deletion takes fuel of its own from the number of keys.
--
-- An upload is a sequence of events: a call of Write that has not returned, the pipe and the goroutine
-- are parts of its state, and the theorems hold for every sequence. Reading the pipe to its end and storing
-- the body are two steps of the goroutine, and TransferError records its error in one step and closes the
-- pipe in a later one.
--
-- The S3 service and the uploader, mime.TypeByExtension, os.ReadFile, os.LookupEnv, yaml.Unmarshal,
-- strings.ToLower beyond ASCII, bcrypt.CompareHashAndPassword, tls.LoadX509KeyPair, os.OpenFile,
-- x509.CertPool, awsconfig.LoadDefaultConfig and manager.MinUploadPartSize are parameters. Left out
-- are contexts (a call that times out is one that fails), the lines that are logged, the methods of
-- a view that do nothing (Chmod, Chown, Chtimes), the functions that only give back a field, and the
-- server library, which makes the calls.
pub mod Prelude
pub mod Text
pub mod Keys
pub mod Errors
pub mod Action
pub mod Service
pub mod Info
pub mod Fs
pub mod Listing
pub mod Handle
pub mod Download
pub mod Upload
pub mod Opening
pub mod Dir
pub mod Rename
pub mod Isolation
pub mod Session
pub mod Config
pub mod Backend
pub mod Logging
pub mod Program
pub mod Driver
mod Tests
