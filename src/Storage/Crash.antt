-- ===== src/Storage/Crash.antt =====
-- What a write of app/core/storage.py leaves behind, wherever it ends.
use agenelf.Base.{
  ◌≡◌, refl, ap, ◌∙◌, ◌⊎◌, inl, inr, true, false, Option, none, some, Text, List, [], ◌∷◌, text_eq,
  text_eq_refl, one_of, arith, Bool-cases, ok,
}
use agenelf.Storage.Write.{
  Folder, set_file, Parsed, json, read_parsed, read_json_file, Reply, done, refused, short, Phase,
  opening, filling, replacing, clearing, returned, raised, write_step, write_calls,
  atomic_write_json,
}

set_file_self : (name : Text) (body : Option Text) (f : Folder) → set_file name body f name ≡ body
unfolding set_file
set_file_self name body f = rw (text_eq_refl name) refl

set_file-other :
    (name : Text) (body : Option Text) (f : Folder) (q : Text)
    → text_eq q name ≡ false
    → set_file name body f q ≡ f q
unfolding set_file
set_file-other name body f q h = rw h refl

module _ (path temp text : Text) (before : Folder) where
  -- Where the calls stand: the target is the old file until the rename, and then the new one; the
  -- temporary file is whole before the rename, and gone after it.
  abbrev pub Stands : Phase → Folder → Type 0
  Stands returned f = (f path ≡ some text) × (f temp ≡ none)
  Stands replacing f = (f path ≡ before path) × (f temp ≡ some text)
  Stands _ f = f path ≡ before path

  -- Every other file is as it was.
  abbrev pub Apart : Folder → Type 0
  Apart f = (q : Text) → text_eq q path ≡ false → text_eq q temp ≡ false → f q ≡ before q

  write_step-Stands :
      (a : Reply) (p : Phase) (f : Folder)
      → text_eq path temp ≡ false
      → Stands p f
      → Stands (write_step path temp text a p f).phase (write_step path temp text a p f).folder
  unfolding write_step
  write_step-Stands done opening f h s = set_file-other temp (some []) f path h ∙ s
  write_step-Stands refused opening f h s = s
  write_step-Stands (short k) opening f h s = s
  write_step-Stands done filling f h s =
      (set_file-other temp (some text) f path h ∙ s, set_file_self temp (some text) f)
  write_step-Stands refused filling f h s = s
  write_step-Stands (short k) filling f h s = set_file-other temp _ f path h ∙ s
  write_step-Stands done replacing f h s = (
    set_file-other temp none (set_file path (some text) f) path h
        ∙ set_file_self path (some text) f,
    set_file_self temp none (set_file path (some text) f),
  )
  write_step-Stands refused replacing f h s = s.0
  write_step-Stands (short k) replacing f h s = s.0
  write_step-Stands done clearing f h s = set_file-other temp none f path h ∙ s
  write_step-Stands refused clearing f h s = s
  write_step-Stands (short k) clearing f h s = s
  write_step-Stands a returned f h s = s
  write_step-Stands a raised f h s = s

  write_step-Apart :
      (a : Reply) (p : Phase) (f : Folder)
      → Apart f
      → Apart (write_step path temp text a p f).folder
  unfolding write_step
  write_step-Apart done opening f s q h k = set_file-other temp (some []) f q k ∙ s q h k
  write_step-Apart done filling f s q h k = set_file-other temp (some text) f q k ∙ s q h k
  write_step-Apart (short n) filling f s q h k = set_file-other temp _ f q k ∙ s q h k
  write_step-Apart done replacing f s q h k =
      set_file-other temp none (set_file path (some text) f) q k
      ∙ set_file-other path (some text) f q h
      ∙ s q h k
  write_step-Apart done clearing f s q h k = set_file-other temp none f q k ∙ s q h k
  write_step-Apart refused opening f s q h k = s q h k
  write_step-Apart refused filling f s q h k = s q h k
  write_step-Apart refused replacing f s q h k = s q h k
  write_step-Apart refused clearing f s q h k = s q h k
  write_step-Apart (short n) opening f s q h k = s q h k
  write_step-Apart (short n) replacing f s q h k = s q h k
  write_step-Apart (short n) clearing f s q h k = s q h k
  write_step-Apart a returned f s q h k = s q h k
  write_step-Apart a raised f s q h k = s q h k

  write_calls-Stands :
      (answers : List Reply) (p : Phase) (f : Folder)
      → text_eq path temp ≡ false
      → Stands p f
      → let w = write_calls path temp text answers p f in Stands w.phase w.folder
  unfolding write_calls
  write_calls-Stands [] p f h s = s
  write_calls-Stands (a ∷ answers) p f h s =
      let w = write_step path temp text a p f in
      write_calls-Stands answers w.phase w.folder h (write_step-Stands a p f h s)

  write_calls-Apart :
      (answers : List Reply) (p : Phase) (f : Folder)
      → Apart f
      → Apart (write_calls path temp text answers p f).folder
  unfolding write_calls
  write_calls-Apart [] p f s = s
  write_calls-Apart (a ∷ answers) p f s =
      let w = write_step path temp text a p f in
      write_calls-Apart answers w.phase w.folder (write_step-Apart a p f s)

  module _ {A : Type 0} (parse : Text → Parsed A) (default : A) where
    -- What a reader of the target gets, and whether the temporary file is gone.
    abbrev pub Reads : A → Phase → Folder → Type 0
    Reads value returned f = (read_json_file parse default (f path) ≡ ok value) × (f temp ≡ none)
    Reads value _ f =
        read_json_file parse default (f path) ≡ read_json_file parse default (before path)

    read_json_file-text :
        (value : A) → parse text ≡ json value → read_json_file parse default (some text) ≡ ok value
    unfolding read_json_file read_parsed
    read_json_file-text value h = rw h refl

    Stands-Reads :
        (value : A) (p : Phase) (f : Folder)
        → parse text ≡ json value
        → Stands p f
        → Reads value p f
    Stands-Reads value returned f h s =
        (ap (read_json_file parse default) s.0 ∙ read_json_file-text value h, s.1)
    Stands-Reads value opening f h s = ap (read_json_file parse default) s
    Stands-Reads value filling f h s = ap (read_json_file parse default) s
    Stands-Reads value replacing f h s = ap (read_json_file parse default) s.0
    Stands-Reads value clearing f h s = ap (read_json_file parse default) s
    Stands-Reads value raised f h s = ap (read_json_file parse default) s

    -- Wherever a write ends, by a crash at any of its calls, by an error or by its return: unless it
    -- has returned, a reader of the target gets what it got before; once it has returned, the reader
    -- gets the value that was written, and the temporary file is gone. All other files are as they
    -- were. The written text is JSON of the value, and the temporary file has another name than the
    -- target.
    pub atomic_write_json-Reads :
        (value : A) (answers : List Reply)
        → text_eq path temp ≡ false
        → parse text ≡ json value
        → let w = atomic_write_json path temp text answers before in
          Reads value w.phase w.folder
          × ((q : Text) → (one_of (path ∷ temp ∷ []) q ≡ true) ⊎ (w.folder q ≡ before q))
    unfolding atomic_write_json
    atomic_write_json-Reads value answers other h =
        let w = write_calls path temp text answers opening before in
        (
          Stands-Reads value w.phase w.folder h
              (write_calls-Stands answers opening before other refl),
          λ q. elim (Bool-cases (one_of (path ∷ temp ∷ []) q)) [
            | inl named ↦ inl named
            | inr apart ↦ inr (
                write_calls-Apart answers opening before (λ p a b. refl) q (ground arith)
                  (ground arith))
          ],
        )
