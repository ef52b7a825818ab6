-- ===== src/Owner/Turns.antt =====
-- Calls of `apply_owner_decision` one after another, between which the files of the requests may
-- become any others: the agent can write them (app/core/owner_approval.py).
use agenelf.Base.{
  ℕ, ◌≡◌, refl, ap, Bool, true, not, Option, none, some, Text, List, [], ◌∷◌, is_some, arith,
  Result, ok, Result-cases, Bool-cases, ◌⊎◌, inl, inr,
}
use agenelf.Operations.Requests.{Request, find, read_json}
use agenelf.Permissions.Files.{AuthRequest}
use agenelf.Owner.Files.{OwnerDecision, OwnerFiles, Codec, ApprovalError}
use agenelf.Owner.Decide.{
  Ballot, Plan, settled, replace, create, is_final, fresh_plan, make_plan, store, commit, cast,
  read_ballot, apply_owner_decision,
}

-- A call, with the request files that it finds.
pub record Turn : Type 0 where
  pub now : ℕ
  pub ops : List (Text × Option Request)
  pub auths : List (Text × Option AuthRequest)
  pub request_id : Text
  pub action : Text
  pub reason : Text
  pub decided_by : Text

abbrev pub seen : Turn → OwnerFiles → OwnerFiles
seen t files = record files { ops = t.ops; auths = t.auths }

module _ (codec : Codec) where
  unfoldable pub turn : Turn → OwnerFiles → Result ApprovalError OwnerDecision × OwnerFiles
  unfolding apply_owner_decision
  turn t files =
      apply_owner_decision codec t.now t.request_id t.action t.reason t.decided_by (seen t files)

  unfoldable pub turns : List Turn → OwnerFiles → OwnerFiles
  unfolding turn
  turns [] files = files
  turns (t ∷ ts) files = let (r, files') = turn t files in turns ts files'

abbrev pub is_open : Option OwnerDecision → Bool
is_open none = true
is_open (some d) = not (is_final d)

abbrev pub written : Plan → Option OwnerDecision
written (settled d) = none
written (replace d) = some d
written (create d) = some d

-- A write that a ballot led to.
pub record Wrote (now : ℕ) (b : Ballot) (files files' : OwnerFiles) : Type 0 where
  pub decision : OwnerDecision
  pub after : files' ≡ store b.request_id decision files
  pub undecided : is_open (read_json b.request_id files.decisions) ≡ true
  pub planned :
      written (fresh_plan b.action now b (read_json b.request_id files.decisions)) ≡ some decision

make_plan-fresh :
    (now : ℕ) (b : Ballot) (existing : Option OwnerDecision) (plan : Plan) {d : OwnerDecision}
    → make_plan now b existing ≡ ok plan
    → written plan ≡ some d
    → (is_open existing ≡ true) × (written (fresh_plan b.action now b existing) ≡ some d)
unfolding make_plan
make_plan-fresh now b none plan h w = (refl, ground arith)
make_plan-fresh now b (some e) plan h w = elim (Bool-cases (is_final e)) [
  | inl final ↦ ground arith
  | inr more ↦ (rw more refl, ground arith)
]

commit-writes :
    (b : Ballot) (plan : Plan) (files : OwnerFiles)
    → ((commit b plan files).1 ≡ files)
      ⊎ ((d : OwnerDecision) × ((commit b plan files).1 ≡ store b.request_id d files)
          × (written plan ≡ some d))
unfolding commit
commit-writes b (settled d) files = inl refl
commit-writes b (replace d) files = inr (d, refl, refl)
commit-writes b (create d) files = elim (Bool-cases (is_some (find b.request_id files.decisions))) [
  | inl there ↦ inl (rw there refl)
  | inr free ↦ inr (d, rw free refl, refl)
]

-- A ballot changes nothing, or it replaces a decision that is not final by the one that is planned.
pub cast-Wrote :
    (now : ℕ) (b : Ballot) (files : OwnerFiles)
    → ((cast now b files).1 ≡ files) ⊎ Wrote now b files (cast now b files).1
unfolding cast
cast-Wrote now b files =
    elim (Result-cases (make_plan now b (read_json b.request_id files.decisions))) [
      | inr (e, refused) ↦ inl (rw refused refl)
      | inl (plan, planned) ↦ elim (commit-writes b plan files) [
        | inl same ↦ inl (rw planned same)
        | inr (d, after, w) ↦
            let (undecided, fresh) =
              make_plan-fresh now b (read_json b.request_id files.decisions) plan planned w in
            inr (record {
              decision = d;
              after = rw planned after;
              undecided = undecided;
              planned = fresh;
            })
      ]
    ]

module _ (codec : Codec) where
  -- A call leaves the decisions as they are, or it writes what its ballot leads to.
  pub turn-Wrote :
      (t : Turn) (files : OwnerFiles)
      → ((turn codec t files).1.decisions ≡ files.decisions)
        ⊎ ((b : Ballot) × (read_ballot codec t.request_id t.action t.reason t.decided_by
                (seen t files)
              ≡ ok b)
            × Wrote t.now b (seen t files) (turn codec t files).1)
  unfolding turn apply_owner_decision
  turn-Wrote t files =
      elim (Result-cases
        (read_ballot codec t.request_id t.action t.reason t.decided_by (seen t files))) [
          | inr (e, refused) ↦ inl (rw refused refl)
          | inl (b, read) ↦ elim (cast-Wrote t.now b (seen t files)) [
            | inl same ↦ inl (rw read (ap (λ (f : OwnerFiles). f.decisions) same))
            | inr wrote ↦ inr (b, read, rw read wrote)
          ]
        ]
