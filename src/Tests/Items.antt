-- ===== src/Tests/Items.antt =====
-- Two messages of one stream, and two sources.
use native.Mathlib.Nat.{ℕ_set}
use mathlib.Core.List.{Mem, not-mem-nil, forall_mem-cons}
use mathlib.Core.List.Perm
use logstore_archive.Base.{
  ℕ, String, String_set, arith, ◌≡◌, refl, sym, ◌∙◌, ◌↔◌, Bool, true, false, Option, some, [], ◌∷◌,
  inl, All,
}
use logstore_archive.Base.Result.{Result, ok}
use logstore_archive.Base.Sort.{Collation}
use logstore_archive.Validator.RollingConfig.{Switches}
use logstore_archive.Validator.Item.{ItemMessage, Calls, generate}
use logstore_archive.Validator.Item.Agreement.{generate-unfailing_iff, unfailing, left_over}
use logstore_archive.Validator.Managers.Sources.{with_sources, with_sources_iff, Answers}
use logstore_archive.Validator.Managers.Stores.{
  get_stores, new_manager, stake_all, stake, charge_all, charge,
}
use logstore_archive.Validator.Pipeline.{item_of}
use logstore_archive.Validator.Pipeline.Agreement.{item_of-get_stores}
use logstore_archive.Tests.Managers.{
  add, sub, in_block_five, amounts-IsCommuting, in_block_five-IsQuery,
}

abbrev switches : Switches
switches = record { to_ten = 100; to_twenty = 200 }

-- every text has the same place
abbrev one_place : Collation String
one_place = record {
  not_after = λ a b. true;
  total = λ a b. inl refl;
  transitive = λ a b c h k. refl;
}

abbrev message : ItemMessage ℕ
message = record {
  content = 5;
  metadata = record {
    stream_id = "s";
    stream_partition = 0;
    timestamp = 7;
    sequence_number = 0;
    signature = "";
    publisher_id = "p";
    msg_chain_id = "c";
  };
}

abbrev once : String → ℕ → ℕ → Calls ℕ
once id from to = record { failed = []; complete = message ∷ [] }

abbrev retried : String → ℕ → ℕ → Calls ℕ
retried id from to = record { failed = (message ∷ []) ∷ []; complete = message ∷ [] }

abbrev render : ℕ → String
render n = "n"

message_set : IsSet (ItemMessage ℕ)
message_set = hlevel (String_set, ℕ_set)

is_message : (x : ItemMessage ℕ) → Mem x (message ∷ message ∷ []) → x ≡ message
is_message =
    (forall_mem-cons (λ x. message_set x message)).1
      (refl, (forall_mem-cons (λ x. message_set x message)).1 (refl, λ x m. absurd (not-mem-nil m)))

generate-unfailing_iff_example :
    (generate switches one_place render retried 50 ("s" ∷ "t" ∷ [])
      ≡ generate switches one_place render
          (unfailing switches one_place render retried)
          50
          ("s" ∷ "t" ∷ []))
    ↔ All (λ id. left_over switches one_place render retried 50 id ≡ []) ("s" ∷ "t" ∷ [])
generate-unfailing_iff_example =
    generate-unfailing_iff switches one_place render retried 50 ("s" ∷ "t" ∷ [])

abbrev answer : ℕ → Result String String
answer source = ok "result"

with_sources_iff_example :
    (with_sources answer (λ t. t) (1 ∷ 2 ∷ []) ≡ ok (some "result"))
    ↔ ((answer 1 ≡ ok "result") × All (Answers answer (λ t. t) "result") (2 ∷ []))
with_sources_iff_example = with_sources_iff answer (λ t. t) 1 (2 ∷ []) "result"

abbrev no_text : String → String → Bool
no_text s t = false

abbrev one_chain : String → ℕ
one_chain s = 137

abbrev addresses : ℕ → Option String
addresses chain = some "0xa"

abbrev found : ℕ → Result String ℕ
found key = ok 8

only_message : (x : ItemMessage ℕ) → Mem x (message ∷ []) → x ≡ message
only_message =
    (forall_mem-cons (λ x. message_set x message)).1 (refl, λ x m. absurd (not-mem-nil m))

item_of-get_stores_example :
    item_of switches one_place render add sub
      (in_block_five "s" 9)
      (in_block_five "s" 2)
      (ok 1)
      found
      once
      ((get_stores add sub (in_block_five "s" 9) (in_block_five "s" 2) new_manager 1 6).1)
      50
    ≡ item_of switches one_place render add sub
        (in_block_five "s" 9)
        (in_block_five "s" 2)
        (ok 1)
        found
        once
        new_manager
        50
unfolding get_stores stake_all stake charge_all charge
item_of-get_stores_example =
    item_of-get_stores switches one_place render add sub (in_block_five "s" 9) (in_block_five "s" 2)
      found once once new_manager 1 6 8 50 ℕ_set (omega arith) refl amounts-IsCommuting
      (in_block_five-IsQuery "s" 9) (in_block_five-IsQuery "s" 2) (omega arith) (omega arith)
      (omega arith) (refl, tt) (λ id a b. Perm.rfl)
      (λ x y m n h k. only_message x m ∙ sym (only_message y n))
