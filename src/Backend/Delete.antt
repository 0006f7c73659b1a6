-- ===== src/Backend/Delete.antt =====
-- `delete_file_and_index` of src-tauri/src/main.rs: the command that deletes a file and its record. The
-- file system and the library that keeps the index are parameters; the log is left out.
pub mod Retries
use search_every.Prelude.{
  List, ◌++◌, Text, Bool, true, false, Option, none, some, codes, if◌then◌else◌,
}

-- `Result<(), String>`
pub data Result : Type 0 where
  ok : Result
  err : Text → Result

-- What one run of the command meets: the error of removing a file that is there, if any, and of one
-- that is not; whether the index can be opened and has the field of the path; and the errors of its
-- writer and of its commit, if any.
pub record Host : Type 0 where
  pub denied : Option Text
  pub not_found : Text
  pub opens : Bool
  pub has_path : Bool
  pub writer : Option Text
  pub commit : Option Text

module _ (host : Host) where
  -- The argument tells whether the file is there; `none` is success.
  abbrev pub remove_file : Bool → Option Text
  remove_file true = host.denied
  remove_file false = some host.not_found

  abbrev commit_record : Option Text → Result
  commit_record none = ok
  commit_record (some e) = err e

  abbrev write_record : Option Text → Result
  write_record none = commit_record host.commit
  write_record (some e) = err e

  -- An index that cannot be opened is passed over.
  unfoldable pub delete_record : Result
  delete_record =
      if host.opens
      then if host.has_path
        then write_record host.writer
        else err (codes "schema missing field 'path'")
      else ok

  abbrev pub after_remove : Bool → Option Text → Result × Bool
  after_remove present none = (delete_record, false)
  after_remove present (some e) = (err (codes "删除文件失败: " ++ e), present)

  -- The result, and whether the file is there afterwards.
  unfoldable pub delete_file_and_index : Bool → Result × Bool
  delete_file_and_index present = after_remove present (remove_file present)
