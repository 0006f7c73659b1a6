-- ===== src/Backend/Index/Grows.antt =====
-- Indexing a file again.
use mathlib.Core.List.{Memᴰ}
use mathlib.Core.List.Memᴰ.{head, tail}
use search_every.Prelude.{
  List, [], ◌∷◌, ◌++◌, Text, Bool, true, false, not, any, filter, map, text_eq, text_eq_sound, All,
  ◌≡◌, refl, ap, sym, ◌∙◌, Bool-cases, inl, inr, append_assoc, append-nil,
}
use search_every.Types.{FileMeta}
use search_every.Utils.Path.{is_separator}
use search_every.Services.Api.{IndexOpts}
use search_every.Backend.Index.{Document, Reader, document_of, index_files}

-- What the library documents of its index, whose field of the path is split into words.
pub record IsIndex {ℓ} {Index : Type ℓ} (delete_term : Text → Index → Index)
    (add_document : Document → Index → Index) (words : Text → List Text)
    (stored : Index → List Document) : Type ℓ where
  -- A term deletes the documents with that word in their path.
  pub deletes :
      (t : Text) (i : Index)
      → stored (delete_term t i) ≡ filter (λ d. not (any (text_eq t) (words d.path))) (stored i)
  pub adds : (d : Document) (i : Index) → stored (add_document d i) ≡ stored i ++ d ∷ []
  -- A word has no separator of a path in it.
  pub splits : (path w : Text) → Memᴰ w (words path) → any is_separator w ≡ false

no_word :
    (t : Text) (ws : List Text)
    → any is_separator t ≡ true
    → ((w : Text) → Memᴰ w ws → any is_separator w ≡ false)
    → any (text_eq t) ws ≡ false
no_word t [] h k = refl
no_word t (w ∷ ws) h k = elim (Bool-cases (text_eq t w)) [
  | inl e ↦
      let same = text_eq_sound t w e in
      let w_free = k w (head refl) in
      let t_free = ap (any is_separator) same ∙ w_free in let false_true = sym h ∙ t_free in cc
  | inr e ↦ rw (e, no_word t ws h (λ v i. k v (tail i))) refl
]

filter-every :
    (p : Document → Bool) (ds : List Document) → ((d : Document) → p d ≡ true) → filter p ds ≡ ds
filter-every p [] h = refl
filter-every p (d ∷ ds) h = rw (h d, filter-every p ds h) refl

-- If a term deletes the documents with that word in their path, and no word has a separator in it, then
-- indexing files whose paths have a separator deletes no document: it adds one for each of the files, in
-- order, also for those that the index has already.
pub stored-index_files {ℓ} :
    {Index : Type ℓ} {delete_term : Text → Index → Index} {add_document : Document → Index → Index}
    {words : Text → List Text} {stored : Index → List Document} (reader : Reader) (opts : IndexOpts)
    (files : List FileMeta) (index : Index)
    → IsIndex delete_term add_document words stored
    → All (λ f. any is_separator f.path ≡ true) files
    → stored (index_files reader opts delete_term add_document files index)
      ≡ stored index ++ map (document_of reader opts) files
unfolding index_files
stored-index_files {stored = stored} reader opts [] index lib h = sym (append-nil (stored index))
stored-index_files {delete_term = delete_term} {add_document = add_document} {words = words}
      {stored = stored} reader opts (f ∷ fs) index lib h =
    let d = document_of reader opts f in
    let kept : stored (delete_term f.path index) ≡ stored index =
      lib.deletes f.path index
      ∙ filter-every (λ e. not (any (text_eq f.path) (words e.path))) (stored index)
          (λ e. ap not (no_word f.path (words e.path) h.0 (lib.splits e.path))) in
    let added = lib.adds d (delete_term f.path index) ∙ ap (λ ds. ds ++ d ∷ []) kept in
    stored-index_files reader opts fs (add_document d (delete_term f.path index)) lib h.1
    ∙ ap (λ ds. ds ++ map (document_of reader opts) fs) added
    ∙ append_assoc (stored index) (d ∷ []) (map (document_of reader opts) fs)
