-- ===== src/Operations/Lookup.antt =====
-- A directory of files: what is read after a write (app/core/storage.py, `atomic_write_json`, and the
-- `read_json` of its callers).
use agenelf.Base.{
  ◌≡◌, refl, Option, none, some, Text, List, [], ◌∷◌, text_eq, text_eq_iff, text_eq_refl, arith,
  if◌then◌else◌,
}
use agenelf.Operations.Requests.{find, read_json}

module _ {A : Type 0} where
  pub read_json-head :
      (name : Text) (file : Option A) (files : List (Text × Option A))
      → read_json name ((name, file) ∷ files) ≡ file
  unfolding read_json
  read_json-head name none files = ground (arith, text_eq_refl name)
  read_json-head name (some a) files = ground (arith, text_eq_refl name)

  pub read_json-cons :
      (id name : Text) (file : Option A) (files : List (Text × Option A))
      → read_json id ((name, file) ∷ files) ≡ (if text_eq name id then file else read_json id files)
  unfolding read_json
  read_json-cons id name none files = ground arith
  read_json-cons id name (some a) files = ground arith

  -- `os.replace`: the file's content is the new one, and no other file changes.
  unfoldable pub put : Text → A → List (Text × Option A) → List (Text × Option A)
  put name a [] = (name, some a) ∷ []
  put name a ((other, old) ∷ files) =
      if text_eq other name then (name, some a) ∷ files else (other, old) ∷ put name a files

  pub find-put :
      (name other : Text) (a : A) (files : List (Text × Option A))
      → find other (put name a files)
        ≡ (if text_eq name other then some (some a) else find other files)
  unfolding find put
  find-put name other a [] = refl
  find-put name other a ((third, file) ∷ files) = ground (
    arith,
    text_eq_iff name other,
    text_eq_iff third name,
    text_eq_iff third other,
    find-put name other a files,
  )

  pub read_json-put :
      (name other : Text) (a : A) (files : List (Text × Option A))
      → read_json other (put name a files)
        ≡ (if text_eq name other then some a else read_json other files)
  unfolding read_json
  read_json-put name other a files = ground (arith, find-put name other a files)
