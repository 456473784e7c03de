-- ===== src/Tests/Sample.antt =====
-- A platform for the tests, with the identity for SHA-256 and an encoding of JSON that can be undone.
use Prim.Native.Char.{Char}
use Prim.Native.String.append as Append
use Prim.Native.String.{◌++◌ as concat}
use company_command.Prelude.{
  ℕ, zero, suc, String, ◌≡◌, ◌≢◌, refl, sym, ◌∙◌, Bool, true, false, Option, none, some, List, [],
  ◌∷◌, ltb,
}
use company_command.Json.{Json, num, str, obj, end, field}
use company_command.Ids.{above, Platform, digest, canonical_json}
use company_command.Kernel.Records.{Event, receipt, ExecutionReceipt}
use company_command.Kernel.Ledger.{link_seal}
use company_command.Kernel.Ledger.Tamper.{CollisionFree}
use company_command.Kernel.Executor.Recorded.{LoadsBack}
use company_command.Gateway.Intents.Pins.{DigestPins}
use company_command.Tests.Sorting.{sorted, sorted_fields, place, sorted-texts}
use company_command.Tests.Encoding.{
  json_code, json_code_injective, text_code, texts_of, texts_of-text_code,
}

abbrev capability_code : Option String → String
capability_code none = ""
capability_code (some id) = text_code id ""

-- A receipt's fields one after another; other payloads are not read back.
abbrev event_code : Event → String
event_code e = elim e.payload [
  | receipt r ↦ text_code e.company (
      text_code e.task_id (
        text_code r.intent_digest (
          text_code r.decision
            (text_code r.tier (text_code r.reason (capability_code r.capability_id))))))
  | _ ↦ ""
]

abbrev event_with :
    (company task_id intent_digest decision tier reason : String) → Option String → Event
event_with company task_id intent_digest decision tier reason cap = record {
  company = company;
  task_id = task_id;
  payload = receipt (record {
    intent_digest = intent_digest;
    decision = decision;
    tier = tier;
    capability_id = cap;
    reason = reason;
  });
}

abbrev event_of : List String → Option Event
event_of (c ∷ t ∷ d ∷ n ∷ a ∷ r ∷ []) = some (event_with c t d n a r none)
event_of (c ∷ t ∷ d ∷ n ∷ a ∷ r ∷ i ∷ []) = some (event_with c t d n a r (some i))
event_of _ = none

-- `greater` compares numbers; `round_ratio` rounds down.
abbrev greater_score : Option Json → Option Json → Option Bool
greater_score (some (num m)) (some (num n)) = some (ltb n m)
greater_score (some (num m)) none = some true
greater_score none _ = some false
greater_score _ _ = none

abbrev nth_challenge : ℕ → String
nth_challenge zero = "challenge"
nth_challenge (suc n) = concat "+" (nth_challenge n)

abbrev pub sample_platform : Platform
sample_platform = record {
  dumps = λ j. json_code (sorted j) "";
  sha256_hex = λ s. s;
  dump_event = event_code;
  load_event = λ s. event_of (texts_of s);
  b64url = λ s. s;
  token_bytes = nth_challenge;
  strip = λ s. s;
  to_float = λ s. some (above 10);
  py_str = λ j. json_code j "";
  round_ratio = λ m n. m;
  greater = greater_score;
}

pub sample_platform-LoadsBack : LoadsBack sample_platform
unfolding texts_of
sample_platform-LoadsBack c t r = rw (read_back c t r) (go r.capability_id)
  where
    read_back :
        (c t : String) (r : ExecutionReceipt)
        → texts_of (event_code (record { company = c; task_id = t; payload = receipt r }))
          ≡ c
            ∷ t
            ∷ r.intent_digest
            ∷ r.decision
            ∷ r.tier
            ∷ r.reason
            ∷ texts_of (capability_code r.capability_id)
    read_back c t r = simp texts_of-text_code

    go :
        (o : Option String)
        → event_of (
            c ∷ t ∷ r.intent_digest ∷ r.decision ∷ r.tier ∷ r.reason ∷ texts_of (capability_code o))
          ≡ some (event_with c t r.intent_digest r.decision r.tier r.reason o)
    go none = refl
    go (some i) = rw texts_of-text_code refl

concat_injective : (a s t : String) → concat a s ≡ concat a t → s ≡ t
concat_injective String.[] s t e = sym ((λ i. Append.nil s i)) ∙ e ∙ (λ i. Append.nil t i)
concat_injective (String.◌∷◌ c a) s t e =
    concat_injective a s t
      (String_tail (sym (λ i. Append.cons c a s i) ∙ e ∙ (λ i. Append.cons c a t i)))
  where
    String_tail : {c d : Char} {x y : String} → String.◌∷◌ c x ≡ String.◌∷◌ d y → x ≡ y
    String_tail e = cc

digest_injective :
    (a b : Json) → digest sample_platform a ≡ digest sample_platform b → sorted a ≡ sorted b
unfolding digest canonical_json
digest_injective a b e =
    (json_code_injective (sorted a) (sorted b) "" ""
      (concat_injective "sha256:" (json_code (sorted a) "") (json_code (sorted b) "") e)).0

abbrev link : String → String → Json
link prev body = obj (field "prev" (str prev) (field "body" (str body) end))

abbrev link_text : String → String → String
link_text prev body = json_code (sorted (link prev body)) ""

genesis_apart :
    (a b : String)
    → link_text a b ≢ "0000000000000000000000000000000000000000000000000000000000000000"
unfolding json_code sorted sorted_fields place
genesis_apart a b e = absurd cc

pub sample_platform-CollisionFree : CollisionFree sample_platform
unfolding link_seal digest canonical_json sorted sorted_fields place
sample_platform-CollisionFree = record {
  injective = λ a b c d e. let same = digest_injective (link a b) (link c d) e in (cc, cc);
  not_genesis = λ a b e. genesis_apart a b (concat_injective "sha256:" (link_text a b) _ e);
}

pub sample_platform-DigestPins : DigestPins sample_platform
sample_platform-DigestPins a b e = sorted-texts a b (digest_injective (obj a) (obj b) e)
