-- ===== src/Owner/WordsTests.antt =====
-- What the owner types, as the program reads it.
use agenelf.Base.{◌≡◌, refl, none, some, [], codes}
use agenelf.Owner.Files.{is_request_id, sanitize_text}
use agenelf.Owner.Decide.{approve}
use agenelf.Owner.Words.{
  drop_final, first_word, spoken, without_lead, without_colon, without_reason, id_here, find_id,
  read_words, parse_owner_decision,
}

approve_with_reason :
    parse_owner_decision (codes "批准 请求 OP-0123456789abcdef 原因：看过了。")
    ≡ some (record {
      action = approve;
      request_id = codes "op-0123456789abcdef";
      reason = codes "看过了";
    })
unfolding parse_owner_decision drop_final spoken first_word read_words without_lead without_colon
    without_reason id_here find_id is_request_id sanitize_text
approve_with_reason = refl

-- Prose is no decision.
prose : parse_owner_decision (codes "我批准你继续") ≡ none
unfolding parse_owner_decision drop_final spoken first_word
prose = refl

-- A word that begins with the command is taken for the command.
longer_word :
    parse_owner_decision (codes "/approvers?")
    ≡ some (record { action = approve; request_id = []; reason = codes "rs?" })
unfolding parse_owner_decision drop_final spoken first_word read_words without_lead without_colon
    without_reason id_here find_id is_request_id sanitize_text
longer_word = refl
