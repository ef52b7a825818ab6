-- ===== src/Storage/Tests.antt =====
-- A file that the program writes, and the theorem at that file.
use agenelf.Base.{
  ℕ, ◌≡◌, refl, ◌⊎◌, true, none, some, Text, [], ◌∷◌, codes, text_eq, one_of, if◌then◌else◌, err,
}
use agenelf.Storage.Write.{
  Folder, set_file, Parsed, json, not_json, not_utf8, unicode_decode_error, read_parsed,
  read_json_file, done, short, returned, raised, write_step, write_calls, atomic_write_json,
  create_step, create_calls, exclusive_write_json,
}
use agenelf.Storage.Crash.{Reads, atomic_write_json-Reads}

program : Unit {0}
unfolding set_file read_parsed read_json_file write_step write_calls atomic_write_json create_step
    create_calls exclusive_write_json
program = tt

abbrev parse : Text → Parsed ℕ
parse s =
    if text_eq s (codes "{}") then json 7 else if text_eq s (128 ∷ []) then not_utf8 else not_json

abbrev folder : Folder
folder name = if text_eq name (codes "a.json") then some (codes "{") else none

-- A file whose bytes are no UTF-8 is not answered with the default.
undecodable : read_json_file parse 0 (some (128 ∷ [])) ≡ err unicode_decode_error
unfolding program
undecodable = refl

writes :
    let w =
      atomic_write_json
        (codes "a.json")
        (codes ".a")
        (codes "{}")
        (done ∷ done ∷ done ∷ [])
        folder in
    (w.phase ≡ returned)
    × (w.folder (codes "a.json") ≡ some (codes "{}"))
    × (w.folder (codes ".a") ≡ none)
unfolding program
writes = (refl, refl, refl)

-- An exclusive write leaves a file that is there, and a crash in it leaves a part of a new one.
creates :
    let again =
      exclusive_write_json (codes "a.json") (codes ".a") (codes "{}") (done ∷ done ∷ []) folder in
    let part =
      exclusive_write_json
        (codes "b.json")
        (codes ".b")
        (codes "{}")
        (done ∷ short 1 ∷ [])
        folder in
    (again.phase ≡ raised)
    × (again.folder (codes "a.json") ≡ some (codes "{"))
    × (part.folder (codes "b.json") ≡ some (codes "{"))
unfolding program
creates = (refl, refl, refl)

atomic_write_json-Reads_example :
    let w =
      atomic_write_json
        (codes "a.json")
        (codes ".a")
        (codes "{}")
        (done ∷ short 1 ∷ done ∷ [])
        folder in
    Reads (codes "a.json") (codes ".a") (codes "{}") folder parse 0 7 w.phase w.folder
    × ((q : Text) → (one_of (codes "a.json" ∷ codes ".a" ∷ []) q ≡ true) ⊎ (w.folder q ≡ folder q))
atomic_write_json-Reads_example =
    atomic_write_json-Reads (codes "a.json") (codes ".a") (codes "{}") folder parse 0 7
      (done ∷ short 1 ∷ done ∷ []) refl refl
