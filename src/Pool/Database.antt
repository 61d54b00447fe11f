-- ===== src/Pool/Database.antt =====
-- internal/dbpool/pool.go and save.go: one database in memory, its file on the disk, and the
-- fingerprint that connects them. `Db`, `Content`, `Meta` and `RootData` are the parts of
-- gokeepasslib's structures that the pool touches; a nil pointer is `none`.
use kpxcd.Prelude.{ℕ, Bool, ◌&&◌, List, Option, none, some, Bytes, bytes_Eq, ◌==◌, nat_eq, length}
use kpxcd.Keepass.{Groups}

pub record Credentials : Type 0 where
  pub passphrase : Bytes
  pub key : Bytes
  pub windows : Bytes

pub record Meta : Type 0 where
  pub recycle_bin_uuid : Bytes
  pub binaries : List Bytes
  pub custom_data : List Bytes
  pub default_user_name : Bytes

pub record RootData : Type 0 where
  pub groups : Groups
  pub deleted_objects : List Bytes

pub record Content : Type 0 where
  pub meta : Option Meta
  pub root : Option RootData

pub record Db : Type 0 where
  pub credentials : Option Credentials
  pub content : Option Content

-- What `stat` tells of a file, and the bytes that reading it gives.
pub record File : Type 0 where
  pub dev : ℕ
  pub ino : ℕ
  pub mtime : ℕ
  pub ctime : ℕ
  pub mode : ℕ
  pub content : Bytes

-- What stands at the path of a database.
abbrev pub Disk : Type 0
Disk = Option File

pub record FileFingerprint : Type 0 where
  pub dev : ℕ
  pub ino : ℕ
  pub size : ℕ
  pub mtime : ℕ
  pub ctime : ℕ
  pub sha256 : Bytes

-- The `stat` and the read are taken as one look at the disk, and a file that is there can be read;
-- `sha` is SHA-256 in hexadecimal.
unfoldable pub fingerprint_file : (Bytes → Bytes) → Disk → Option FileFingerprint
fingerprint_file sha none = none
fingerprint_file sha (some f) = some record {
  dev = f.dev;
  ino = f.ino;
  size = length f.content;
  mtime = f.mtime;
  ctime = f.ctime;
  sha256 = sha f.content;
}

unfoldable pub equal : FileFingerprint → FileFingerprint → Bool
equal f other =
    nat_eq f.dev other.dev
    && (nat_eq f.ino other.ino
        && (nat_eq f.size other.size
            && (nat_eq f.mtime other.mtime
                && (nat_eq f.ctime other.ctime && f.sha256 == other.sha256))))

pub record OpenDatabase : Type 0 where
  pub uuid : Bytes
  pub name : Bytes
  pub path : Bytes
  pub locked : Bool
  pub db : Option Db
  pub fingerprint : FileFingerprint
  -- The number of the running watcher.
  pub watcher : Option ℕ
