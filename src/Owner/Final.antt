-- ===== src/Owner/Final.antt =====
-- A decision that says "approve" or "deny" is final (app/core/owner_approval.py).
use agenelf.Base.{
  ℕ, ◌≡◌, sym, ap, ◌∙◌, true, some, Text, List, [], ◌∷◌, text_eq, text_eq_iff, arith, inl, inr,
  Bool-cases, if◌then◌else◌,
}
use agenelf.Operations.Requests.{read_json}
use agenelf.Operations.Lookup.{read_json-put}
use agenelf.Owner.Files.{OwnerDecision, OwnerFiles, Codec}
use agenelf.Owner.Decide.{Ballot, is_final, store}
use agenelf.Owner.Turns.{Turn, turn, turns, turn-Wrote, Wrote, is_open}

-- What a write leaves of the decision on another request, and makes of its own.
pub Wrote-read :
    {now : ℕ} {b : Ballot} {files files' : OwnerFiles} (w : Wrote now b files files') (id : Text)
    → read_json id files'.decisions
      ≡ (if text_eq b.request_id id then some w.decision else read_json id files.decisions)
unfolding store
Wrote-read {b = b} {files = files} w id =
    ap (λ (f : OwnerFiles). read_json id f.decisions) w.after
    ∙ read_json-put b.request_id id w.decision files.decisions

module _ (codec : Codec) where
  turn-final :
      (t : Turn) (files : OwnerFiles) (id : Text) (d : OwnerDecision)
      → read_json id files.decisions ≡ some d
      → is_final d ≡ true
      → read_json id (turn codec t files).1.decisions ≡ some d
  turn-final t files id d there final = elim (turn-Wrote codec t files) [
    | inl same ↦ ap (read_json id) same ∙ there
    | inr (b, ballot, w) ↦ elim (Bool-cases (text_eq b.request_id id)) [
      | inl own ↦
          let decided = ap is_open (
            ap (λ (x : Text). read_json x files.decisions) ((text_eq_iff b.request_id id).0 own)
            ∙ there) in
          absurd (ground (arith, sym decided ∙ w.undecided, final))
      | inr other ↦ Wrote-read w id ∙ rw other there
    ]
  ]

  -- Once the decision on a request says "approve" or "deny", no sequence of calls changes it,
  -- whatever they ask for and whatever becomes of the request files in between.
  turns-final :
      (ts : List Turn) (files : OwnerFiles) (id : Text) (d : OwnerDecision)
      → read_json id files.decisions ≡ some d
      → is_final d ≡ true
      → read_json id (turns codec ts files).decisions ≡ some d
  unfolding turns
  turns-final [] files id d there final = there
  turns-final (t ∷ ts) files id d there final =
      turns-final ts (turn codec t files).1 id d (turn-final t files id d there final) final
