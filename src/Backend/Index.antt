-- ===== src/Backend/Index.antt =====
-- The documents that src-tauri/src/pipeline.rs puts into the index, one after another under the lock of
-- its writer. The library that keeps the index is a parameter, as is the reading of a file; its calls
-- succeed.
pub mod Grows
use search_every.Prelude.{
  ℕ, List, [], ◌∷◌, Text, Bool, Option, none, some, any, codes, truthy, if◌then◌else◌,
}
use search_every.Prelude.Int.{ℤ}
use search_every.Types.{FileMeta}
use search_every.Services.Api.{IndexOpts}
use search_every.Backend.Query.{eq_ignore_ascii_case}

pub record Document : Type 0 where
  pub path : Text
  pub name : Text
  pub ext : Text
  pub size : ℕ
  pub modified_ts : ℤ
  pub content : Option Text
  pub summary : Option Text

-- The extensions of which the content is parsed.
abbrev pub text_like : List Text
text_like =
    codes "txt"
    ∷ codes "md"
    ∷ codes "csv"
    ∷ codes "log"
    ∷ codes "json"
    ∷ codes "xml"
    ∷ codes "ini"
    ∷ codes "conf"
    ∷ codes "yaml"
    ∷ codes "yml"
    ∷ []

-- The first million bytes of a file, where they can be read as a text; and the first characters of one.
pub record Reader : Type 0 where
  pub read : Text → Option Text
  pub chars_take : ℕ → Text → Text

-- `if !summary.is_empty() { … }`
abbrev pub unless_empty : Text → Option Text
unless_empty [] = none
unless_empty (c ∷ t) = some (c ∷ t)

module _ (reader : Reader) (opts : IndexOpts) where
  abbrev pub parsed : FileMeta → Option Text
  parsed f =
      if opts.enable_content_parse
      then if any (λ e. eq_ignore_ascii_case e f.ext) text_like then reader.read f.path else none
      else none

  abbrev summary_of : Option Text → Option Text
  summary_of none = none
  summary_of (some text) = unless_empty (reader.chars_take 300 text)

  unfoldable pub document_of : FileMeta → Document
  document_of f = record {
    path = f.path;
    name = f.file_name;
    ext = f.ext;
    size = f.size;
    modified_ts = f.modified_ts;
    content = parsed f;
    summary = summary_of (parsed f);
  }

  -- `delete_term`, `add_document` and `commit`, for each file that the walk yields
  unfoldable pub index_files {ℓ} :
      {Index : Type ℓ}
      → (Text → Index → Index)
      → (Document → Index → Index)
      → List FileMeta
      → Index
      → Index
  unfolding document_of
  index_files delete_term add_document [] index = index
  index_files delete_term add_document (f ∷ fs) index =
      index_files delete_term add_document fs
        (add_document (document_of f) (delete_term f.path index))
