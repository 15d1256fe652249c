-- ===== src/Translation/Context.antt =====
-- backend/app/modules/translation/context_engine.py. The SHA-256 of the JSON of a payload is a parameter. Priorities are
-- naturals; the budget and the estimates that a caller gives may be negative.
pub mod Budget
pub mod Order
use truyenaudio_studio.Prelude.{
  ℕ, zero, suc, ◌+◌, ◌-◌, ◌/◌, Bool, true, false, ◌||◌, ◌&&◌, Option, none, some, List, [], ◌∷◌,
  ltb, leb, ◌==◌, if◌then◌else◌, max,
}
use truyenaudio_studio.Prelude.Int.{ℤ, pos, negsuc}
use truyenaudio_studio.Prelude.Lists.{length}
use truyenaudio_studio.Translation.Text.{Text}

pub record ContextItem : Type 0 where
  pub id : ℕ
  pub kind : Text
  pub text : Text
  pub priority : ℕ
  pub estimated_tokens : Option ℤ

pub record VectorContextHint : Type 0 where
  pub used : Bool
  pub reason : Text
  pub selected : List ℕ

-- `excluded` has the identifiers; the reason is always "BUDGET".
pub record ContextSelection : Type 0 where
  pub selected : List ContextItem
  pub excluded : List ℕ
  pub total_tokens : ℕ
  pub sha256 : ℕ
  pub vector : Option VectorContextHint

pub data Result (A : Type 0) : Type 0 where
  ok : A → Result A
  token_budget_invalid token_estimate_invalid : Result A

-- math.ceil(len(text) / 4), at least 1 for a text that is not empty.
abbrev pub estimate_tokens : Text → ℕ
estimate_tokens [] = 0
estimate_tokens (c ∷ cs) = max 1 ((length (c ∷ cs) + 3) / 4)

abbrev pub cost_of : ContextItem → ℤ
cost_of item = elim item.estimated_tokens [
  | none ↦ pos (estimate_tokens item.text)
  | some tokens ↦ tokens
]

-- (item.priority, item.id) of one item is not greater than that of the other.
unfoldable pub key_leb : ContextItem → ContextItem → Bool
key_leb a b = ltb a.priority b.priority || (a.priority == b.priority && leb a.id b.id)

unfoldable pub insert_item : ContextItem → List ContextItem → List ContextItem
insert_item x [] = x ∷ []
insert_item x (y ∷ ys) =
    let rest = insert_item x ys in if key_leb x y then x ∷ (y ∷ ys) else y ∷ rest

-- sorted(items, key=…), which is stable.
abbrev pub sorted : List ContextItem → List ContextItem
sorted [] = []
sorted (x ∷ xs) = insert_item x (sorted xs)

-- What the loop has selected and excluded, and its total.
pub record Chosen : Type 0 where
  pub items : List ContextItem
  pub excluded : List ℕ
  pub total : ℕ

abbrev pub add_selected : ContextItem → Result Chosen → Result Chosen
add_selected item (ok chosen) = ok (record chosen { items = item ∷ chosen.items })
add_selected item token_budget_invalid = token_budget_invalid
add_selected item token_estimate_invalid = token_estimate_invalid

abbrev pub add_excluded : ContextItem → Result Chosen → Result Chosen
add_excluded item (ok chosen) = ok (record chosen { excluded = item.id ∷ chosen.excluded })
add_excluded item token_budget_invalid = token_budget_invalid
add_excluded item token_estimate_invalid = token_estimate_invalid

abbrev pub is_negative : ℤ → Bool
is_negative (pos n) = false
is_negative (negsuc n) = true

abbrev pub natural : ℤ → ℕ
natural (pos n) = n
natural (negsuc n) = 0

-- The loop over the ordered items with `total`.
unfoldable pub choose : ℕ → ℕ → List ContextItem → Result Chosen
choose token_budget total [] = ok (record { items = []; excluded = []; total = total })
choose token_budget total (item ∷ rest) =
    let cost = natural (cost_of item) in
    let taken = choose token_budget (total + cost) rest in
    let passed = choose token_budget total rest in
    if is_negative (cost_of item)
    then token_estimate_invalid
    else if leb (total + cost) token_budget
    then add_selected item taken
    else add_excluded item passed

-- payload["vector"] is there only for a hint that was used.
abbrev pub used_vector : Option VectorContextHint → Option VectorContextHint
used_vector none = none
used_vector (some hint) = if hint.used then some hint else none

pub record PayloadItem : Type 0 where
  pub id : ℕ
  pub kind : Text
  pub text : Text
  pub priority : ℕ
  pub estimated_tokens : ℤ

pub record Payload : Type 0 where
  pub items : List PayloadItem
  pub total_tokens : ℕ
  pub vector : Option VectorContextHint

abbrev pub payload_items : List ContextItem → List PayloadItem
payload_items [] = []
payload_items (item ∷ items) =
    record {
      id = item.id;
      kind = item.kind;
      text = item.text;
      priority = item.priority;
      estimated_tokens = cost_of item;
    }
    ∷ payload_items items

module _ (hexdigest : Payload → ℕ) where
  abbrev pub to_selection : Option VectorContextHint → Result Chosen → Result ContextSelection
  to_selection vector (ok chosen) = ok (record {
    selected = chosen.items;
    excluded = chosen.excluded;
    total_tokens = chosen.total;
    sha256 = hexdigest (record {
      items = payload_items chosen.items;
      total_tokens = chosen.total;
      vector = used_vector vector;
    });
    vector = vector;
  })
  to_selection vector token_budget_invalid = token_budget_invalid
  to_selection vector token_estimate_invalid = token_estimate_invalid

  unfoldable pub select_context :
      List ContextItem → ℤ → Option VectorContextHint → Result ContextSelection
  select_context items (negsuc n) vector = token_budget_invalid
  select_context items (pos token_budget) vector =
      to_selection vector (choose token_budget 0 (sorted items))
