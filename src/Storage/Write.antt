-- ===== src/Storage/Write.antt =====
-- `read_json` and `atomic_write_json` of app/core/storage.py, call by call: each call of the system
-- has its answer, and a crash is where the answers end.
use agenelf.Base.{
  ℕ, Option, none, some, Text, List, [], ◌∷◌, take, text_eq, if◌then◌else◌, Result, ok, err,
}

-- The files of a directory by their names.
abbrev pub Folder : Type 0
Folder = Text → Option Text

unfoldable pub set_file : Text → Option Text → Folder → Folder
set_file name body folder = λ q. if text_eq q name then body else folder q

-- What `read_text` and `json.loads` make of a file.
pub data Parsed (A : Type 0) : Type 0 where
  json : A → Parsed A
  not_json not_utf8 : Parsed A

pub data ReadError : Type 0 where
  unicode_decode_error : ReadError

-- `read_json`: the default for a file that is missing or no JSON.
unfoldable pub read_parsed : {A : Type 0} → A → Parsed A → Result ReadError A
read_parsed default (json value) = ok value
read_parsed default not_json = ok default
read_parsed default not_utf8 = err unicode_decode_error

unfoldable pub read_json_file :
    {A : Type 0} → (Text → Parsed A) → A → Option Text → Result ReadError A
unfolding read_parsed
read_json_file parse default none = ok default
read_json_file parse default (some body) = read_parsed default (parse body)

-- An answer of the system; `short k` is a write that ends after `k` characters.
pub data Reply : Type 0 where
  done refused : Reply
  short : ℕ → Reply

-- The call that comes next, or how `atomic_write_json` has ended.
pub data Phase : Type 0 where
  opening filling replacing clearing returned raised : Phase

pub record Writing : Type 0 where
  pub phase : Phase
  pub folder : Folder

module _ (path temp text : Text) where
  abbrev to : Phase → Folder → Writing
  to phase folder = record { phase = phase; folder = folder }

  -- `mkstemp`, `write`, `os.replace` and, after an error, `os.unlink`.
  unfoldable pub write_step : Reply → Phase → Folder → Writing
  unfolding set_file
  write_step done opening folder = to filling (set_file temp (some []) folder)
  write_step refused opening folder = to raised folder
  write_step (short k) opening folder = to raised folder
  write_step done filling folder = to replacing (set_file temp (some text) folder)
  write_step refused filling folder = to clearing folder
  write_step (short k) filling folder = to clearing (set_file temp (some (take k text)) folder)
  write_step done replacing folder =
      to returned (set_file temp none (set_file path (some text) folder))
  write_step refused replacing folder = to clearing folder
  write_step (short k) replacing folder = to clearing folder
  write_step done clearing folder = to raised (set_file temp none folder)
  write_step refused clearing folder = to raised folder
  write_step (short k) clearing folder = to raised folder
  write_step answer returned folder = to returned folder
  write_step answer raised folder = to raised folder

  unfoldable pub write_calls : List Reply → Phase → Folder → Writing
  unfolding write_step
  write_calls [] phase folder = to phase folder
  write_calls (answer ∷ answers) phase folder =
      let w = write_step answer phase folder in write_calls answers w.phase w.folder

  -- `atomic_write_json`, as far as the answers go.
  unfoldable pub atomic_write_json : List Reply → Folder → Writing
  unfolding write_calls
  atomic_write_json answers folder = write_calls answers opening folder

  -- With `exclusive`: `os.open` with `O_EXCL`, and the write.
  unfoldable pub create_step : Reply → Phase → Folder → Writing
  unfolding set_file
  create_step done opening folder = elim (folder path) [
    | none ↦ to filling (set_file path (some []) folder)
    | some body ↦ to raised folder
  ]
  create_step done filling folder = to returned (set_file path (some text) folder)
  create_step (short k) filling folder = to raised (set_file path (some (take k text)) folder)
  create_step answer returned folder = to returned folder
  create_step answer phase folder = to raised folder

  unfoldable pub create_calls : List Reply → Phase → Folder → Writing
  unfolding create_step
  create_calls [] phase folder = to phase folder
  create_calls (answer ∷ answers) phase folder =
      let w = create_step answer phase folder in create_calls answers w.phase w.folder

  unfoldable pub exclusive_write_json : List Reply → Folder → Writing
  unfolding create_calls
  exclusive_write_json answers folder = create_calls answers opening folder
