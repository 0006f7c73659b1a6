-- ===== src/App/Scan/Folder.antt =====
-- The folder that is shown while a scan runs.
use search_every.Prelude.{
  ℕ, suc, [], ◌∷◌, ◌++◌, Text, true, false, any, take, length, ◌≡◌, ◌≢◌, refl, ap, ◌∙◌, arith,
}
use search_every.Utils.Path.{is_separator}
use search_every.App.Scan.{after_last_separator, folder}

after_last_separator_none : (s : Text) → any is_separator s ≡ false → after_last_separator s ≡ 0
unfolding after_last_separator
after_last_separator_none [] h = refl
after_last_separator_none (c ∷ s) h = ground (arith, after_last_separator_none s)

after_last_separator-append :
    (d name : Text) (c : ℕ)
    → is_separator c ≡ true
    → any is_separator name ≡ false
    → after_last_separator (d ++ c ∷ name) ≡ suc (length d)
unfolding after_last_separator
after_last_separator-append [] name c h k = rw (after_last_separator_none name k, h) refl
after_last_separator-append (x ∷ d) name c h k =
    rw (after_last_separator-append d name c h k) (ground arith)

take_front : (d s : Text) → take (length d) (d ++ s) ≡ d
take_front [] s = refl
take_front (x ∷ d) s = ap (◌∷◌ x) (take_front d s)

folder_at : (p : Text) (n : ℕ) → after_last_separator p ≡ suc (suc n) → folder p ≡ take (suc n) p
unfolding folder
folder_at p n h = rw h (ground arith)

folder_named :
    (x : ℕ) (d name : Text) (c : ℕ)
    → is_separator c ≡ true
    → any is_separator name ≡ false
    → folder (x ∷ d ++ c ∷ name) ≡ x ∷ d
folder_named x d name c h k =
    folder_at (x ∷ d ++ c ∷ name) (length d) (after_last_separator-append (x ∷ d) name c h k)
    ∙ take_front (x ∷ d) (c ∷ name)

folder_bare : (name : Text) → any is_separator name ≡ false → folder name ≡ name
unfolding folder
folder_bare name k = rw (after_last_separator_none name k) refl

folder_root :
    (name : Text) (c : ℕ)
    → is_separator c ≡ true
    → any is_separator name ≡ false
    → folder (c ∷ name) ≡ c ∷ name
unfolding folder
folder_root name c h k = rw (after_last_separator-append [] name c h k) refl

-- For a name without separators: behind a separator and a text that is not empty, the folder is that
-- text, whatever other separators it has; a name alone, or a name behind one separator only, is kept
-- as it stands.
folder_lem :
    (d name : Text) (c : ℕ)
    → is_separator c ≡ true
    → any is_separator name ≡ false
    → (d ≢ [] → folder (d ++ c ∷ name) ≡ d) × (folder (c ∷ name) ≡ c ∷ name) × (folder name ≡ name)
folder_lem [] name c h k = (λ e. absurd (e refl), folder_root name c h k, folder_bare name k)
folder_lem (x ∷ d) name c h k =
    (λ e. folder_named x d name c h k, folder_root name c h k, folder_bare name k)
